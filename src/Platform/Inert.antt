-- ===== src/Platform/Inert.antt =====
-- Methods that change no row, and methods that change none when they throw.
use bid_battle.Auctions.Service.{or_throw, throw_if}
use bid_battle.Platform.Effects.{
  ask_rows, request, try_catch, when, ◌>>=◌, Eff, Exception, Outcome, Platform, World,
}
use bid_battle.Prelude.{◌∙◌, ◌≡◌, ap, arith, sym, refl, none, some, true, false, Bool, Option}

module _ {P : Platform} {A : Type 0} where
  -- A method that changes no row, and one that changes none when it throws.
  abbrev pub IsInert : Eff P A → Type 0
  IsInert m = (w : World P) → (m w).1.rows ≡ w.rows

  abbrev pub IsAtomic : Eff P A → Type 0
  IsAtomic m =
      (w : World P) (e : Exception) (w' : World P) → m w ≡ (Outcome.throws e, w') → w'.rows ≡ w.rows

  abbrev pub NeverThrows : Eff P A → Type 0
  NeverThrows m = (w : World P) → (a : A) × ((m w).0 ≡ Outcome.ok a)

module _ {P : Platform} {A B : Type 0} where
  pub bind-IsAtomic :
      (m : Eff P A) (f : A → Eff P B) → IsInert m → ((a : A) → IsAtomic (f a)) → IsAtomic (m >>= f)
  bind-IsAtomic m f inert atomic w e w' h = go (m w).0 (m w).1 (inert w) h
    where
      go :
          (r : Outcome A) (v : World P)
          → v.rows ≡ w.rows
          → (elim r as (λ _. Outcome B × World P) [
            | Outcome.ok a ↦ f a v
            | Outcome.throws e' ↦ (Outcome.throws e', v)
          ])
            ≡ (Outcome.throws e, w')
          → w'.rows ≡ w.rows
      go (Outcome.ok a) v kept k = atomic a v e w' k ∙ kept
      go (Outcome.throws e') v kept k = ap (λ p. p.1.rows) (sym k) ∙ kept

  pub bind-IsInert :
      (m : Eff P A) (f : A → Eff P B) → IsInert m → ((a : A) → IsInert (f a)) → IsInert (m >>= f)
  bind-IsInert m f inert rest w = go (m w).0 (m w).1 (inert w)
    where
      go :
          (r : Outcome A) (v : World P)
          → v.rows ≡ w.rows
          → (elim r as (λ _. Outcome B × World P) [
            | Outcome.ok a ↦ f a v
            | Outcome.throws e' ↦ (Outcome.throws e', v)
          ]).1.rows
            ≡ w.rows
      go (Outcome.ok a) v kept = rest a v ∙ kept
      go (Outcome.throws e') v kept = kept

  -- after the last part that may throw
  pub bind_last-IsAtomic :
      (m : Eff P A) (f : A → Eff P B)
      → IsAtomic m
      → ((a : A) → NeverThrows (f a))
      → IsAtomic (m >>= f)
  bind_last-IsAtomic m f atomic quiet w e w' h = go (m w).0 (m w).1 refl h
    where
      go :
          (r : Outcome A) (v : World P)
          → m w ≡ (r, v)
          → (elim r as (λ _. Outcome B × World P) [
            | Outcome.ok a ↦ f a v
            | Outcome.throws e' ↦ (Outcome.throws e', v)
          ])
            ≡ (Outcome.throws e, w')
          → w'.rows ≡ w.rows
      go (Outcome.ok a) v eq k = let no = sym (quiet a v).1 ∙ ap (λ p. p.0) k in cc
      go (Outcome.throws e') v eq k = ap (λ p. p.1.rows) (sym k) ∙ atomic w e' v eq

module _ {P : Platform} {A : Type 0} where
  pub try_catch-IsAtomic :
      (m : Eff P A) (h : Exception → Eff P A)
      → IsAtomic m
      → ((e : Exception) → IsInert (h e))
      → IsAtomic (try_catch m h)
  try_catch-IsAtomic m h atomic inert w e w' k = go (m w).0 (m w).1 refl k
    where
      go :
          (r : Outcome A) (v : World P)
          → m w ≡ (r, v)
          → (elim r as (λ _. Outcome A × World P) [
            | Outcome.ok a ↦ (Outcome.ok a, v)
            | Outcome.throws e' ↦ h e' v
          ])
            ≡ (Outcome.throws e, w')
          → w'.rows ≡ w.rows
      go (Outcome.ok a) v eq j = let no = ap (λ p. p.0) j in cc
      go (Outcome.throws e') v eq j = ap (λ p. p.1.rows) (sym j) ∙ inert e' v ∙ atomic w e' v eq

  pub ask_rows-IsInert : (f : P.database.Rows → A) → IsInert (ask_rows {P = P} f)
  unfolding request
  ask_rows-IsInert f w = ground arith

  pub or_throw-IsInert : (o : Option A) (e : Exception) → IsInert (or_throw {P = P} o e)
  or_throw-IsInert none e w = refl
  or_throw-IsInert (some a) e w = refl

pub throw_if-IsInert : {P : Platform} (b : Bool) (e : Exception) → IsInert (throw_if {P = P} b e)
throw_if-IsInert true e w = refl
throw_if-IsInert false e w = refl

pub when-IsInert : {P : Platform} (b : Bool) (m : Eff P (Unit {0})) → IsInert m → IsInert (when b m)
when-IsInert true m inert w = inert w
when-IsInert false m inert w = refl
