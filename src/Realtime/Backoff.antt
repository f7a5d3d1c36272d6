-- ===== src/Realtime/Backoff.antt =====
-- The waits between two attempts to connect, and a close that comes late.
use smart_form.Base.{
  ℕ, ◌-◌, ◌∙◌, ap, Bool-cases, inl, inr, [], ◌∷◌, zero, suc, ◌+◌, ◌^◌, ◌≤◌, ◌||◌, false, ◌≡◌, ◌≢◌,
  refl, some, List, arith, any, nat_eq, nat_eq_iff,
}
use native.Mathlib.Numerals.{towards_suc, add-one}
use smart_form.Realtime.{AgentRealtimeClientConfig, Client, Reports, is_available, without}
use smart_form.Realtime.Handlers.{delay_of, is_off, on_close}

pow_pos : (n : ℕ) → 1 ≤ 2 ^ n
pow_pos zero = omega arith
pow_pos (suc n) = omega (arith, pow_pos n)

delay_bounds :
    (n : ℕ)
    → (1000 ≤ delay_of n)
      × (delay_of n ≤ 30000)
      × (delay_of n ≤ delay_of (suc n))
      × (delay_of (n + 5) ≡ 30000)
unfolding delay_of
delay_bounds n = simp towards_suc (omega (arith, pow_pos n))

late_delay : (n : ℕ) → 5 ≤ n → delay_of n ≡ 30000
late_delay n h = let e : n ≡ (n - 5) + 5 = omega arith in ap delay_of e ∙ (delay_bounds (n - 5)).3

-- Another socket is as open as before.
any-without :
    (i j : ℕ) (ready : List ℕ) → i ≢ j → any (nat_eq j) (without i ready) ≡ any (nat_eq j) ready
any-without i j [] other = refl
any-without i j (k ∷ ready) other =
    ground (arith, any-without i j ready other, nat_eq_iff i k, nat_eq_iff j k)

module _ (c : AgentRealtimeClientConfig) (reports : Reports) where
  -- A close, unless the client was stopped or is not to reconnect, is followed by an attempt after a
  -- second to half a minute; the attempt after that does not come sooner, and from the sixth in a row
  -- on the wait is half a minute.
  pub close_outcome :
      (i : ℕ) (s : Client)
      → (s.stopped || is_off c.reconnect) ≡ false
      → (d : ℕ) × ((on_close c reports i s).1.reconnect_timer ≡ some d)
        × (1000 ≤ d)
        × (d ≤ 30000)
        × (d ≤ delay_of (on_close c reports i s).1.reconnect_attempt)
        × (5 ≤ s.reconnect_attempt → d ≡ 30000)
  unfolding on_close
  close_outcome i s wanted =
      let (low, high, grows, _) = delay_bounds s.reconnect_attempt in
      rw wanted (
        delay_of s.reconnect_attempt,
        refl,
        low,
        high,
        rw add-one grows,
        λ h. late_delay s.reconnect_attempt h,
      )

  -- The close of an old socket makes a client unavailable that is connected by a newer one, although
  -- that one stays as open as it was.
  pub late_close :
      (i j : ℕ) (s : Client)
      → i ≢ j
      → s.socket ≡ some j
      → (is_available (on_close c reports i s).1 ≡ false)
        × ((on_close c reports i s).1.socket ≡ some j)
        × (any (nat_eq j) (on_close c reports i s).1.ready ≡ any (nat_eq j) s.ready)
  unfolding on_close
  late_close i j s other on = elim (Bool-cases (s.stopped || is_off c.reconnect)) [
    | inl still ↦ rw still (refl, on, any-without i j s.ready other)
    | inr again ↦ rw again (refl, on, any-without i j s.ready other)
  ]
