-- ===== src/Base/Maps.antt =====
-- std::unordered_map with 32-bit keys, as the list of its pairs in the order in which they came. The
-- order in which the container is iterated is not that of the list: see Routing.Choices.
use Prim.Native.Nat.{ℕ}
use mathlib.Core.Path.{◌≡◌, refl, sym, ap, ◌∙◌}
use mathlib.Core.Logic.{inl, inr}
use mathlib.Core.Bool.{Bool, true, false, false≢true}
use mathlib.Core.List.{List, [], ◌∷◌, Memᴰ}
use mathlib.Core.List.Memᴰ
use native.Mathlib.Omega.{arith}
use ospfd_rfc.Base.Tests.{◌==◌, if◌then◌else◌, Bool-cases}

abbrev pub Map {ℓ} : Type ℓ → Type ℓ
Map A = List (ℕ × A)

module _ {ℓ} {A : Type ℓ} where
  unfoldable pub has_key : ℕ → Map A → Bool
  has_key k [] = false
  has_key k ((j, v) ∷ m) = if j == k then true else has_key k m

  -- `m[k]` where it is read: a key that is missing gets the value `d` of the default constructor.
  unfoldable pub index : A → ℕ → Map A → A
  index d k [] = d
  index d k ((j, v) ∷ m) = if j == k then v else index d k m

  -- `m[k] = v`
  unfoldable pub insert : ℕ → A → Map A → Map A
  insert k v [] = (k, v) ∷ []
  insert k v ((j, w) ∷ m) = if j == k then (j, v) ∷ m else (j, w) ∷ insert k v m

  -- What reading `m[k]` leaves in the map.
  unfoldable pub touch : A → ℕ → Map A → Map A
  touch d k m = insert k (index d k m) m

  pub index-insert :
      (d : A) (j k : ℕ) (v : A) (m : Map A)
      → index d j (insert k v m) ≡ (if k == j then v else index d j m)
  unfolding index insert
  index-insert d j k v [] = ground arith
  index-insert d j k v ((i, w) ∷ m) = ground (arith, index-insert d j k v m)

  pub index-touch : (d : A) (j k : ℕ) (m : Map A) → index d j (touch d k m) ≡ index d j m
  unfolding touch
  index-touch d j k m = ground (arith, index-insert d j k (index d k m) m)

  pub has_key-insert :
      (j k : ℕ) (v : A) (m : Map A)
      → has_key j (insert k v m) ≡ (if k == j then true else has_key j m)
  unfolding has_key insert
  has_key-insert j k v [] = refl
  has_key-insert j k v ((i, w) ∷ m) = ground (arith, has_key-insert j k v m)

  pub index-missing : (d : A) (k : ℕ) (m : Map A) → has_key k m ≡ false → index d k m ≡ d
  unfolding index has_key
  index-missing d k [] h = refl
  index-missing d k ((j, v) ∷ m) h = ground (arith, index-missing d k m)

  -- Each key once.
  unfoldable pub IsMap : Map A → Type 0
  IsMap [] = Unit
  IsMap ((k, v) ∷ m) = (has_key k m ≡ false) × IsMap m

  pub insert-IsMap : (k : ℕ) (v : A) (m : Map A) → IsMap m → IsMap (insert k v m)
  unfolding insert IsMap has_key
  insert-IsMap k v [] h = (refl, tt)
  insert-IsMap k v ((j, w) ∷ m) (new, h) = elim (Bool-cases (j == k)) [
    | inl same ↦ rw same (new, h)
    | inr other ↦
        rw other (ground (arith, has_key-insert j k v m, other, new), insert-IsMap k v m h)
  ]

  pub Memᴰ-has_key : (k : ℕ) (v : A) (m : Map A) → Memᴰ (k, v) m → has_key k m ≡ true
  unfolding has_key
  Memᴰ-has_key k v [] m = absurd (Memᴰ.not-nil m)
  Memᴰ-has_key k v ((j, w) ∷ m) (Memᴰ.head same) =
      let here : k ≡ j = ap (λ (p : ℕ × A). p.0) same in ground (arith, here)
  Memᴰ-has_key k v ((j, w) ∷ m) (Memᴰ.tail later) = ground (arith, Memᴰ-has_key k v m later)

  pub index-Memᴰ : (d : A) (k : ℕ) (v : A) (m : Map A) → IsMap m → Memᴰ (k, v) m → index d k m ≡ v
  unfolding index IsMap
  index-Memᴰ d k v [] h m = absurd (Memᴰ.not-nil m)
  index-Memᴰ d k v ((j, w) ∷ m) (new, h) (Memᴰ.head same) =
      let key : (j == k) ≡ true = ground (arith, ap (λ (p : ℕ × A). p.0) same) in
      rw key (sym (ap (λ (p : ℕ × A). p.1) same))
  index-Memᴰ d k v ((j, w) ∷ m) (new, h) (Memᴰ.tail later) =
      let key : (j == k) ≡ false = elim (Bool-cases (j == k)) [
        | inl same ↦
            let here : j ≡ k = ground (arith, same) in
            absurd
              (false≢true (sym new ∙ ap (λ (x : ℕ). has_key x m) here ∙ Memᴰ-has_key k v m later))
        | inr other ↦ other
      ] in
      rw key (index-Memᴰ d k v m h later)
