-- ===== src/BodyChecks/Stops/Closing.antt =====
-- tools/http_body_checks.py: `close_confirmed`, the evidence that the socket is closed.
use Prim.Native.String.{String}
use c64_https.Common.{
  some-injective, ℕ, ◌≡◌, refl, sym, ap, ◌∙◌, ◌↔◌, ◌⊎◌, inl, inr, Bool, true, false, Option, none,
  some, if◌then◌else◌, Bool-cases, arith,
}
use c64_https.BodyChecks.Stops.{reads, said, closed_text, close_confirmed}
use c64_https.BodyChecks.Stops.Laws.{reads-some}

-- What the call looks for after an early stop.
abbrev pub Closed : Bool → Bool → Option ℕ → Type 0
Closed stopped_early shadow_ok tcp = (stopped_early ≡ true) × (shadow_ok ≡ true) × (tcp ≡ some 0)

socket_part :
    (stopped_early shadow_ok : Bool) (tcp : Option ℕ) (closed_before : Option String)
    (text : String)
    → said closed_before ≡ false
    → (close_confirmed stopped_early shadow_ok tcp closed_before ≡ some text)
      ↔ (Closed stopped_early shadow_ok tcp × (text ≡ closed_text))
unfolding close_confirmed
socket_part false shadow_ok tcp before text n = ((λ h. cc), λ h. cc)
socket_part true false tcp before text n = ((λ h. cc), λ h. cc)
socket_part true true tcp before text n = (
  (λ h. elim (Bool-cases (reads tcp 0)) [
    | inl e ↦ ((refl, refl, reads-some tcp 0 e), sym (some-injective (rw (n, e) at h)))
    | inr e ↦ absurd (ground arith)
  ]),
  λ h.
      ap (λ b. if b then before else if reads tcp 0 then some closed_text else none) n
      ∙ (ap (λ t. if reads t 0 then some closed_text else none) h.0.2 ∙ ap some (sym h.1)),
)

-- `close_confirmed` gives a text exactly in two cases: there is evidence from before, of one character
-- at least, and the text is that; or there is none, the loop stopped early, the shadow RAM is readable,
-- the socket reads CLOSED, and the text is the one that says so.
pub close_confirmed_iff :
    (stopped_early shadow_ok : Bool) (tcp : Option ℕ) (closed_before : Option String)
    (text : String)
    → (close_confirmed stopped_early shadow_ok tcp closed_before ≡ some text) ↔ (
        (said closed_before ≡ true) × (closed_before ≡ some text)
        ⊎ (said closed_before ≡ false) × Closed stopped_early shadow_ok tcp × (text ≡ closed_text))
unfolding close_confirmed
close_confirmed_iff stopped_early shadow_ok tcp before text = elim (Bool-cases (said before)) [
  | inl e ↦ ((λ h. inl (e, rw e at h)), λ h. elim h [ inl f ↦ rw e f.1 | inr f ↦ cc ])
  | inr e ↦ (
    (λ h.
        let (c, t) = (socket_part stopped_early shadow_ok tcp before text e).0 h in inr (e, c, t)),
    λ h. elim h [
      | inl f ↦ cc
      | inr f ↦ (socket_part stopped_early shadow_ok tcp before text e).1 (f.1, f.2)
    ],
  )
]
