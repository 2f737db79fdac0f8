-- ===== src/Prelude/Lists.antt =====
-- Lists measured and indexed by native numbers, under the library's names.
use Prim.Native.Nat.{ℕ, zero, suc, ◌+◌, ◌<◌}
use mathlib.Core.Path.{◌≡◌, refl, ap, ◌∙◌}
use mathlib.Core.Logic.{inl, inr}
use mathlib.Core.Bool.{Bool, true, false, not, ◌&&◌, ◌||◌}
use mathlib.Core.List.{List, [], ◌∷◌, ◌++◌, map, Memᴰ}
use aic_verifier.Prelude.Tests.{Bool-cases}
use mathlib.Core.Option.{Option, none, some}
use native.Mathlib.Omega.{arith}

module _ {ℓ} {A : Type ℓ} where
  abbrev pub length : List A → ℕ
  length [] = 0
  length (x ∷ xs) = suc (length xs)

  abbrev pub get_elem? : List A → ℕ → Option A
  get_elem? [] i = none
  get_elem? (x ∷ xs) zero = some x
  get_elem? (x ∷ xs) (suc i) = get_elem? xs i

  abbrev pub take : ℕ → List A → List A
  take zero xs = []
  take (suc n) [] = []
  take (suc n) (x ∷ xs) = x ∷ take n xs

  abbrev pub drop : ℕ → List A → List A
  drop zero xs = xs
  drop (suc n) [] = []
  drop (suc n) (x ∷ xs) = drop n xs

  -- A loop that stops at the first item that passes.
  abbrev pub any : (A → Bool) → List A → Bool
  any p [] = false
  any p (x ∷ xs) = p x || any p xs

  abbrev pub all : (A → Bool) → List A → Bool
  all p [] = true
  all p (x ∷ xs) = p x && all p xs

  -- A loop that appends each item that passes.
  abbrev pub filter : (A → Bool) → List A → List A
  filter p [] = []
  filter p (x ∷ xs) = elim (p x) [ true ↦ x ∷ filter p xs | false ↦ filter p xs ]

  pub length-append : (xs ys : List A) → length (xs ++ ys) ≡ length xs + length ys
  length-append [] ys = omega arith
  length-append (x ∷ xs) ys = omega (arith, length-append xs ys)

  pub get_elem?-lt : (xs : List A) (i : ℕ) → i < length xs → (x : A) × (get_elem? xs i ≡ some x)
  get_elem?-lt [] i h = elim h [ ]
  get_elem?-lt (x ∷ xs) zero h = (x, refl)
  get_elem?-lt (x ∷ xs) (suc i) h = get_elem?-lt xs i (omega arith)

  pub get_elem?-append :
      (xs ys : List A) (i : ℕ) {x : A} → get_elem? xs i ≡ some x → get_elem? (xs ++ ys) i ≡ some x
  get_elem?-append [] ys i h = ground arith
  get_elem?-append (x ∷ xs) ys zero h = h
  get_elem?-append (x ∷ xs) ys (suc i) h = get_elem?-append xs ys i h

  pub get_elem?-append_last : (xs : List A) (x : A) → get_elem? (xs ++ x ∷ []) (length xs) ≡ some x
  get_elem?-append_last [] x = refl
  get_elem?-append_last (y ∷ xs) x = get_elem?-append_last xs x

pub get_elem?-map {ℓ κ} :
    {A : Type ℓ} {B : Type κ} (f : A → B) (xs : List A) (i : ℕ) {x : A}
    → get_elem? xs i ≡ some x
    → get_elem? (map f xs) i ≡ some (f x)
get_elem?-map f [] i h = absurd (ground arith)
get_elem?-map f (x ∷ xs) zero h = ground arith
get_elem?-map f (x ∷ xs) (suc i) h = get_elem?-map f xs i h

pub length-map {ℓ κ} :
    {A : Type ℓ} {B : Type κ} (f : A → B) (xs : List A) → length (map f xs) ≡ length xs
length-map f [] = refl
length-map f (x ∷ xs) = ap suc (length-map f xs)

module _ {ℓ} {A : Type ℓ} (p : A → Bool) where
  pub all-rejected : (xs : List A) → filter (λ x. not (p x)) xs ≡ [] → all p xs ≡ true
  all-rejected [] h = refl
  all-rejected (x ∷ xs) h = elim (Bool-cases (p x)) [
    | inl passes ↦ rw passes (all-rejected xs (ground (arith, passes)))
    | inr fails ↦ absurd (ground (arith, fails))
  ]

  -- what a filter keeps stood in the list and passes
  pub Memᴰ-filter : (a : A) (xs : List A) → Memᴰ a (filter p xs) → Memᴰ a xs × (p a ≡ true)
  Memᴰ-filter a [] m = elim m [ ]
  Memᴰ-filter a (x ∷ xs) m = go (p x) refl m (Memᴰ-filter a xs)
    where
      go :
          (b : Bool)
          → p x ≡ b
          → Memᴰ a (elim b as (λ _. List A) [ true ↦ x ∷ filter p xs | false ↦ filter p xs ])
          → (Memᴰ a (filter p xs) → Memᴰ a xs × (p a ≡ true))
          → Memᴰ a (x ∷ xs) × (p a ≡ true)
      go false e n later = let (old, passes) = later n in (Memᴰ.tail old, passes)
      go true e (Memᴰ.head same) later = (Memᴰ.head same, ap p same ∙ e)
      go true e (Memᴰ.tail n) later = let (old, passes) = later n in (Memᴰ.tail old, passes)

-- a filter after one that keeps more
pub filter-filter {ℓ} :
    {A : Type ℓ} (p q : A → Bool) (xs : List A)
    → ((x : A) → p x ≡ false → q x ≡ false)
    → filter q (filter p xs) ≡ filter q xs
filter-filter p q [] h = refl
filter-filter p q (x ∷ xs) h = elim (Bool-cases (p x)) [
  | inr out ↦ rw (out, filter) (rw (h x out, filter) (filter-filter p q xs h))
  | inl kept ↦ elim (Bool-cases (q x)) [
    | inr out ↦ rw (kept, filter) (rw (out, filter) (filter-filter p q xs h))
    | inl both ↦ rw (kept, filter) (rw (both, filter) (ap (λ l. x ∷ l) (filter-filter p q xs h)))
  ]
]

-- A loop that returns the first item that passes.
unfoldable pub find? {ℓ} : {A : Type ℓ} → (A → Bool) → List A → Option A
find? p [] = none
find? p (x ∷ xs) = let rest = find? p xs in elim (p x) [ true ↦ some x | false ↦ rest ]

-- no item passes where a search finds none
pub any-false {ℓ} :
    {A : Type ℓ} (p : A → Bool) (xs : List A) (a : A) → any p xs ≡ false → Memᴰ a xs → p a ≡ false
any-false p [] a h m = elim m [ ]
any-false p (x ∷ xs) a h m = elim (Bool-cases (p x)) [
  | inl passes ↦ absurd (ground (arith, passes, h))
  | inr fails ↦ elim m [
    | Memᴰ.head same ↦ ap p same ∙ fails
    | Memᴰ.tail n ↦ any-false p xs a (ground (arith, fails, h)) n
  ]
]

pub find?-none {ℓ} :
    {A : Type ℓ} (p : A → Bool) (xs : List A) (a : A) → find? p xs ≡ none → Memᴰ a xs → p a ≡ false
unfolding find?
find?-none p [] a h m = elim m [ ]
find?-none p (x ∷ xs) a h m = elim (Bool-cases (p x)) [
  | inl passes ↦ absurd (ground (arith, passes, h))
  | inr fails ↦ elim m [
    | Memᴰ.head same ↦ ap p same ∙ fails
    | Memᴰ.tail n ↦ find?-none p xs a (ground (arith, fails, h)) n
  ]
]
