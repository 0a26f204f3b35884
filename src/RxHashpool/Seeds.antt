-- ===== src/RxHashpool/Seeds.antt =====
-- rx_hashpool.hpp, has_dataset and calculate_dataset: which seeds the two slots are for.
use epic_poold.Base.{ℕ, ◌+◌, ◌%◌, ◌^◌, ◌<◌, ◌≡◌, ◌⊎◌, refl, inl, inr, true, [], ◌∷◌, arith}
use epic_poold.Vector32.{V32, get_id}
use epic_poold.RxHashpool.{Slot, Pool, begun, has_loaded_seed, has_seed, begin_seed}

abbrev two_slots : Slot → Slot → ℕ → Pool
two_slots x y ds_ctr = record { ds = x ∷ y ∷ []; ds_ctr = ds_ctr }

begin_seed-even :
    (x y : Slot) (ds_ctr : ℕ) (seed : V32)
    → ds_ctr % 2 ≡ 0
    → begin_seed (two_slots x y ds_ctr) seed ≡ two_slots (begun x seed) y ((ds_ctr + 1) % 2 ^ 64)
unfolding begin_seed
begin_seed-even x y ds_ctr seed e = rw e refl

begin_seed-odd :
    (x y : Slot) (ds_ctr : ℕ) (seed : V32)
    → ds_ctr % 2 ≡ 1
    → begin_seed (two_slots x y ds_ctr) seed ≡ two_slots x (begun y seed) ((ds_ctr + 1) % 2 ^ 64)
unfolding begin_seed
begin_seed-odd x y ds_ctr seed e = rw e refl

seeds_of :
    (x y : Slot) (ds_ctr id : ℕ)
    → (x.loaded_seed_id ≡ id) ⊎ (y.loaded_seed_id ≡ id)
    → has_seed (two_slots x y ds_ctr) id ≡ true
unfolding has_seed has_loaded_seed
seeds_of x y ds_ctr id (inl e) = ground arith
seeds_of x y ds_ctr id (inr e) = ground arith

-- The two seeds whose calculations were begun last are those of the two slots, whichever slot comes
-- first. The counter is a 64-bit word.
pub begin_seed-keeps_both :
    (x y : Slot) (ds_ctr : ℕ) (a b : V32)
    → ds_ctr < 2 ^ 64
    → let p = begin_seed (begin_seed (record { ds = x ∷ y ∷ []; ds_ctr = ds_ctr }) a) b in
      (has_seed p (get_id a) ≡ true) × (has_seed p (get_id b) ≡ true)
begin_seed-keeps_both x y ds_ctr a b word = by_parity (omega arith)
  where
    Both : Pool → Type 0
    Both p = (has_seed p (get_id a) ≡ true) × (has_seed p (get_id b) ≡ true)

    by_parity :
        (ds_ctr % 2 ≡ 0) ⊎ (ds_ctr % 2 ≡ 1)
        → Both (begin_seed (begin_seed (two_slots x y ds_ctr) a) b)
    by_parity (inl even) =
        rw
          (
            begin_seed-even x y ds_ctr a even,
            begin_seed-odd (begun x a) y ((ds_ctr + 1) % 2 ^ 64) b (omega arith),
          )
          (seeds_of _ _ _ _ (inl refl), seeds_of _ _ _ _ (inr refl))
    by_parity (inr odd) =
        rw
          (
            begin_seed-odd x y ds_ctr a odd,
            begin_seed-even x (begun y a) ((ds_ctr + 1) % 2 ^ 64) b (omega arith),
          )
          (seeds_of _ _ _ _ (inr refl), seeds_of _ _ _ _ (inl refl))
