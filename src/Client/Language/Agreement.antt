-- ===== src/Client/Language/Agreement.antt =====
-- What the server and the client make of the same header.
use bid_battle.Client.Language.{
  detect_from_accept_language, get_lang, language_codes, language_of, primary_tag, same,
  short_or_english, until, lower, trim, trim_start, trim_end, before, is_space, is_empty,
  ActiveLanguage,
}
use bid_battle.Prelude.{
  ==_iff, [], ◌∷◌, ◌≡◌, ◌==◌, ◌∙◌, ap, sym, map, none, some, true, false, refl, inl, inr,
  Bool-cases, arith, List, ℕ,
}

start_start : (ns : List ℕ) → trim_start (trim_start ns) ≡ trim_start ns
start_start [] = refl
start_start (n ∷ ns) = elim (Bool-cases (is_space n)) [
  | inl space ↦ ground (arith, space, start_start ns)
  | inr other ↦ ground (arith, other)
]

before-start : (n : ℕ) (ms : List ℕ) → is_space n ≡ false → trim_start (before n ms) ≡ before n ms
before-start n [] other = ground (arith, other)
before-start n (m ∷ ms) other = ground (arith, other)

before-start_space :
    (n : ℕ) (ms : List ℕ) → is_space n ≡ true → trim_start (before n ms) ≡ trim_start ms
before-start_space n [] space = ground (arith, space)
before-start_space n (m ∷ ms) space = simp space refl

end_start : (ns : List ℕ) → trim_end (trim_start ns) ≡ trim_start (trim_end ns)
end_start [] = refl
end_start (n ∷ ns) = elim (Bool-cases (is_space n)) [
  | inl space ↦ simp space (end_start ns ∙ sym (before-start_space n (trim_end ns) space))
  | inr other ↦ simp other (sym (before-start n (trim_end ns) other))
]

space_apart : (c n : ℕ) → is_space c ≡ false → is_space n ≡ true → (n == c) ≡ false
space_apart c n apart space = elim (Bool-cases (n == c)) [
  | inl equal ↦ let e = ap is_space ((==_iff n c).0 equal) in ground (arith, e, apart, space)
  | inr differs ↦ differs
]

until-start :
    (c : ℕ) (ns : List ℕ) → is_space c ≡ false → until c (trim_start ns) ≡ trim_start (until c ns)
until-start c [] apart = refl
until-start c (n ∷ ns) apart = elim (Bool-cases (is_space n)) [
  | inl space ↦ simp (space, space_apart c n apart space) (until-start c ns apart)
  | inr other ↦ elim (Bool-cases (n == c)) [
    | inl cut ↦ simp (other, cut) refl
    | inr kept ↦ simp (other, kept) refl
  ]
]

-- a text whose end is trimmed to nothing is white space, so its part is too
end-until_before :
    (c n : ℕ) (ms ns : List ℕ)
    → is_space c ≡ false
    → trim_end (until c ms) ≡ trim_end (until c ns)
    → trim_end (until c (before n ms)) ≡ trim_end (until c (n ∷ ns))
end-until_before c n [] ns apart h = elim (Bool-cases (is_space n)) [
  | inl space ↦ simp (space, space_apart c n apart space) (rw⁻¹ h (simp space refl))
  | inr other ↦ elim (Bool-cases (n == c)) [
    | inl cut ↦ simp (other, cut) refl
    | inr kept ↦
        let left : trim_end (until c (before n [])) ≡ before n [] = ground (arith, other, kept) in
        let right : before n (trim_end (until c ns)) ≡ trim_end (until c (n ∷ ns)) =
          simp kept refl in
        left ∙ ap (before n) h ∙ right
  ]
]
end-until_before c n (m ∷ ms) ns apart h = elim (Bool-cases (n == c)) [
  | inl cut ↦ simp cut refl
  | inr kept ↦ simp kept (ap (before n) h)
]

end-until :
    (c : ℕ) (ns : List ℕ)
    → is_space c ≡ false
    → trim_end (until c (trim_end ns)) ≡ trim_end (until c ns)
end-until c [] apart = refl
end-until c (n ∷ ns) apart = end-until_before c n (trim_end ns) ns apart (end-until c ns apart)

-- trimming a text first does not change its trimmed part
trim-until :
    (c : ℕ) (ns : List ℕ) → is_space c ≡ false → trim (until c (trim ns)) ≡ trim (until c ns)
trim-until c ns apart =
    ap trim (until-start c (trim_end ns) apart)
    ∙ ap trim_start (end_start (until c (trim_end ns)))
    ∙ start_start (trim_end (until c (trim_end ns)))
    ∙ ap trim_start (end-until c ns apart)

lower_dash : (n : ℕ) → (lower n == 45) ≡ (n == 45)
lower_dash n = ground arith

until-lower : (ns : List ℕ) → until 45 (map lower ns) ≡ map lower (until 45 ns)
until-lower [] = refl
until-lower (n ∷ ns) = ground (arith, lower_dash n, until-lower ns)

same-equal : (ns ms : List ℕ) → same ns ms ≡ true → ns ≡ ms
same-equal [] [] h = refl
same-equal [] (m ∷ ms) h = cc
same-equal (n ∷ ns) [] h = cc
same-equal (n ∷ ns) (m ∷ ms) h = ground (arith, h, same-equal ns ms, (==_iff n m).0)

some_language : (l m : ActiveLanguage) → some l ≡ some m → l ≡ m
some_language l m h = cc

language_of-codes :
    (ns : List ℕ) (l : ActiveLanguage) → language_of ns ≡ some l → ns ≡ language_codes l
language_of-codes ns l h = elim (Bool-cases (same ns (language_codes ActiveLanguage.polish))) [
  | inl polish ↦
      let found : language_of ns ≡ some ActiveLanguage.polish = simp polish refl in
      same-equal ns (language_codes ActiveLanguage.polish) polish
      ∙ ap language_codes (some_language ActiveLanguage.polish l (sym found ∙ h))
  | inr other ↦ elim (Bool-cases (same ns (language_codes ActiveLanguage.english))) [
    | inl english ↦
        let found : language_of ns ≡ some ActiveLanguage.english = simp (other, english) refl in
        same-equal ns (language_codes ActiveLanguage.english) english
        ∙ ap language_codes (some_language ActiveLanguage.english l (sym found ∙ h))
    | inr neither ↦
        let missed : language_of ns ≡ none = simp (other, neither) refl in
        let no = sym missed ∙ h in cc
  ]
]

short_codes : (l : ActiveLanguage) → short_or_english (language_codes l) ≡ language_codes l
short_codes ActiveLanguage.english = refl
short_codes ActiveLanguage.polish = refl

-- what is detected stands in the header
detected :
    (raw : List ℕ) (l : ActiveLanguage)
    → detect_from_accept_language raw ≡ some l
    → (is_empty (trim raw) ≡ false)
      × (language_of (until 45 (map lower (primary_tag raw))) ≡ some l)
unfolding detect_from_accept_language
detected raw l found = elim (Bool-cases (is_empty (trim raw))) [
  | inl nothing ↦
      let missed : detect_from_accept_language raw ≡ none = simp nothing refl in
      let no = sym missed ∙ found in cc
  | inr text ↦ elim (Bool-cases (is_empty (primary_tag raw))) [
    | inl nothing ↦
        let missed : detect_from_accept_language raw ≡ none = simp (text, nothing) refl in
        let no = sym missed ∙ found in cc
    | inr tag ↦
        let read : detect_from_accept_language raw
            ≡ language_of (until 45 (map lower (primary_tag raw))) =
          simp (text, tag) refl in
        (text, sym read ∙ found)
  ]
]

-- When the client finds one of its languages in a header, the server takes the same one from it.
pub get_lang-detect :
    (raw : List ℕ) (l : ActiveLanguage)
    → detect_from_accept_language raw ≡ some l
    → get_lang (some raw) ≡ language_codes l
unfolding get_lang
get_lang-detect raw l found =
    let parts = detected raw l found in
    let tags : primary_tag (trim raw) ≡ primary_tag raw =
      ap (λ x. trim (until 59 x)) (trim-until 44 raw refl) in
    let tag =
      sym (until-lower (primary_tag raw))
      ∙ language_of-codes (until 45 (map lower (primary_tag raw))) l parts.1 in
    let read : get_lang (some raw)
        ≡ short_or_english (map lower (until 45 (primary_tag (trim raw)))) =
      simp parts.0 refl in
    read
    ∙ ap (λ x. short_or_english (map lower (until 45 x))) tags
    ∙ ap short_or_english tag
    ∙ short_codes l
