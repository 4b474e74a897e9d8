-- ===== src/Client/Forms/Passwords.antt =====
-- What the password rules of the server and of the forms have in common.
use bid_battle.Client.Forms.{
  ahead, change_rule, is_digit, is_line_end, is_lower, is_non_word, is_strong, is_upper, passes,
  passes_here, register_rule, starts_plain, to_end,
}
use bid_battle.Prelude.{
  ==_iff, ◌≡◌, ◌||◌, ◌==◌, Bool-cases, arith, false, inl, inr, not, refl, true, Bool, String, ℕ,
}
use Prim.Native.Char.{Char, code}

nothing_ahead : (p : ℕ → Bool) → ahead p String.[] ≡ false
unfolding ahead
nothing_ahead p = refl

ahead-skip :
    (p : ℕ → Bool) (c : Char) (s : String)
    → p (code c) ≡ false
    → ahead p (String.◌∷◌ c s) ≡ true
    → ahead p s ≡ true
unfolding ahead
ahead-skip p c s misses h = ground (arith, misses, h)

to_end-skip :
    (c : Char) (s : String)
    → to_end (String.◌∷◌ c s) ≡ true
    → (to_end s ≡ true) × (is_line_end (code c) ≡ false)
unfolding to_end
to_end-skip c s h = ground (arith, h)

passes_here-all :
    (s : String)
    → ahead is_lower s ≡ true
    → ahead is_upper s ≡ true
    → (ahead is_digit s || ahead is_non_word s) ≡ true
    → to_end s ≡ true
    → starts_plain s ≡ true
    → passes_here s ≡ true
passes_here-all s lower upper mark ends plain = rw (mark, plain, upper, lower, ends) refl

no_new_line : (n : ℕ) → (n == 46) ≡ false → is_line_end n ≡ false → not (n == 46 || n == 10) ≡ true
no_new_line n h g = ground arith

-- what a dot is not
dot_apart :
    (n : ℕ) → (n == 46) ≡ true → (is_lower n ≡ false) × (is_upper n ≡ false) × (is_digit n ≡ false)
dot_apart n h = rw ((==_iff n 46).0 h) (refl, refl, refl)

-- leading dots apart, a text in one line with both kinds of letters and a digit passes
pub strong-passes :
    (s : String)
    → ahead is_lower s ≡ true
    → ahead is_upper s ≡ true
    → ahead is_digit s ≡ true
    → to_end s ≡ true
    → passes s ≡ true
unfolding passes
strong-passes String.[] lower upper digit ends = let no = nothing_ahead is_lower in cc
strong-passes (String.◌∷◌ c s) lower upper digit ends = elim (Bool-cases (code c == 46)) [
  | inl dot ↦
      let apart = dot_apart (code c) dot in
      let later =
        strong-passes s (ahead-skip is_lower c s apart.0 lower)
          (ahead-skip is_upper c s apart.1 upper) (ahead-skip is_digit c s apart.2 digit)
          (to_end-skip c s ends).0 in
      ground (arith, later)
  | inr other ↦
      let plain = no_new_line (code c) other (to_end-skip c s ends).1 in
      let here = passes_here-all (String.◌∷◌ c s) lower upper (rw digit refl) ends plain in
      rw here refl
]

-- A password that may be registered may also be set by a change or a reset.
pub register_rule-change :
    (password password_repeat : String)
    → register_rule password password_repeat ≡ true
    → change_rule password password_repeat ≡ true
unfolding register_rule change_rule is_strong
register_rule-change password password_repeat h = ground (arith, h, strong-passes password)
