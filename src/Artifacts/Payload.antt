-- ===== src/Artifacts/Payload.antt =====
-- What the signed text of an artifact tells apart, and what it does not.
use Prim.Native.Char.{Char}
use Prim.Native.String.append
use text.Mathlib.TextLemmas
use smart_form.Base.{String, ◌≡◌, true, ap, sym, ◌∙◌, text_concat, List, [], ◌∷◌, lacks, separated}
use smart_form.Contracts.Artifact.{ArtifactReference}
use smart_form.Artifacts.{Tools, join_lines, signature_payload, kind_name, compatibility_text}

abbrev pub newline : Char
newline = "\n"

-- The text has no line feed.
abbrev pub IsLine : String → Type 0
IsLine s = lacks newline s ≡ true

-- All texts but the last have no line feed.
abbrev AreLines : List String → Type 0
AreLines [] = Unit {0}
AreLines (s ∷ []) = Unit {0}
AreLines (s ∷ t ∷ rest) = IsLine s × AreLines (t ∷ rest)

join_lines-cons :
    (s t : String) (rest : List String)
    → join_lines (s ∷ t ∷ rest) ≡ separated newline s (join_lines (t ∷ rest))
unfolding join_lines
join_lines-cons s t rest = ap (text_concat s) (
    append.cons newline String.[] (join_lines (t ∷ rest))
    ∙ ap (String.◌∷◌ newline) (append.nil (join_lines (t ∷ rest))))

separated_assoc :
    (s t u : String)
    → separated newline (separated newline s t) u ≡ separated newline s (separated newline t u)
separated_assoc s t u =
    TextLemmas.append_assoc s (String.◌∷◌ newline t) (String.◌∷◌ newline u)
    ∙ ap (text_concat s) (append.cons newline t (String.◌∷◌ newline u))

join_lines_moves :
    (a b c k : String) (rest : List String)
    → join_lines (a ∷ separated newline b c ∷ k ∷ rest)
      ≡ join_lines (separated newline a b ∷ c ∷ k ∷ rest)
join_lines_moves a b c k rest =
    let end = join_lines (k ∷ rest) in
    join_lines-cons a (separated newline b c) (k ∷ rest)
    ∙ ap (separated newline a) (join_lines-cons (separated newline b c) k rest)
    ∙ ap (separated newline a) (separated_assoc b c end)
    ∙ sym (separated_assoc a b (separated newline c end))
    ∙ ap (separated newline (separated newline a b)) (sym (join_lines-cons c k rest))
    ∙ sym (join_lines-cons (separated newline a b) c (k ∷ rest))

module _ {Key : Type 0} (tools : Tools Key) where
  -- The fields that a reference is signed with have no line feed.
  pub record HasLines (r : ArtifactReference) : Type 0 where
    pub artifact : IsLine r.artifact_id
    pub tenant : IsLine r.tenant_id
    pub version : IsLine r.version
    pub hash : IsLine (tools.lower r.sha256)
    pub size : IsLine (tools.number_text r.content_length)
    pub key : IsLine r.signing_key_id
    pub published : IsLine r.published_at

  -- A line feed may stand on either side of the border between artifact and tenant: the artifact
  -- `a` of the tenant `b⏎c` is signed with the same text as the artifact `a⏎b` of the tenant `c`.
  pub signature_payload_moves :
      (r : ArtifactReference) (a b c : String)
      → signature_payload tools (record r { artifact_id = a; tenant_id = separated newline b c })
        ≡ signature_payload tools (record r { artifact_id = separated newline a b; tenant_id = c })
  unfolding signature_payload
  signature_payload_moves r a b c = join_lines_moves a b c (kind_name r.kind) (
      r.version
      ∷ tools.lower r.sha256
      ∷ tools.number_text r.content_length
      ∷ r.signing_key_id
      ∷ r.published_at
      ∷ compatibility_text tools r.compatibility
      ∷ [])
