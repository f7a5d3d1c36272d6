-- ===== src/Server/Keys.antt =====
-- The key of a device, apps/server/src/realtime/session-registry.ts, tells tenants and devices apart.
use Prim.Native.Char.{nul}
use Prim.Native.String.append
use smart_form.Base.{
  String, ◌≡◌, Bool, true, ap, sym, ◌∙◌, text_concat, lacks, separated, separated-injective,
}
use smart_form.Server.Sessions.{device_key}

-- The text has no NUL.
abbrev pub has_no_nul : String → Bool
has_no_nul = lacks nul

device_key-eq-separated : (t d : String) → device_key t d ≡ separated nul t d
device_key-eq-separated t d =
    ap (text_concat t) (append.cons nul String.[] d ∙ ap (String.◌∷◌ nul) (append.nil d))

-- Tenants without NUL: two keys are equal only for one tenant and one device.
pub device_key-injective :
    (t u d e : String)
    → has_no_nul t ≡ true
    → has_no_nul u ≡ true
    → device_key t d ≡ device_key u e
    → (t ≡ u) × (d ≡ e)
device_key-injective t u d e h k same =
    separated-injective nul t u d e h k
      (sym (device_key-eq-separated t d) ∙ (same ∙ device_key-eq-separated u e))
