-- ===== src/Base/Maps.antt =====
-- Arrays of the kernel as functions of the index, with single writes and fills.
use Prim.Native.Nat.{ℕ, zero, suc, ◌+◌, ◌<◌}
use mathlib.Core.Path.{◌≡◌, refl}
use mathlib.Core.Bool.{◌&&◌}
use native.Mathlib.Omega.{arith}
use valkyrie.Base.Tests.{◌==◌, ltb, leb, if◌then◌else◌}

module _ {ℓ} {A : Type ℓ} where
  -- `f[i] = v`
  abbrev pub update : (ℕ → A) → ℕ → A → ℕ → A
  update f i v j = if i == j then v else f j

  -- `for (j = i; j < i + n; j++) f[j] = v;`
  unfoldable pub fill : (ℕ → A) → ℕ → ℕ → A → ℕ → A
  fill f i zero v = f
  fill f i (suc n) v = fill (update f i v) (suc i) n v

  fill_below : (f : ℕ → A) (i n : ℕ) (v : A) (j : ℕ) → j < i → fill f i n v j ≡ f j
  unfolding fill
  fill_below f i zero v j h = refl
  fill_below f i (suc n) v j h = ground (arith, fill_below (update f i v) (suc i) n v j)

  -- A fill writes the cells from `i` to `i + n`, and no other.
  pub fill_lem :
      (f : ℕ → A) (i n : ℕ) (v : A) (j : ℕ)
      → fill f i n v j ≡ (if leb i j && ltb j (i + n) then v else f j)
  unfolding fill
  fill_lem f i zero v j = ground arith
  fill_lem f i (suc n) v j =
      ground (arith, fill_lem (update f i v) (suc i) n v j, fill_below (update f i v) (suc i) n v j)
