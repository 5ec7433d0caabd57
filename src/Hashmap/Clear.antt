-- ===== src/Hashmap/Clear.antt =====
-- `mdv_hashmap_clear` of mdv_hashmap.c.
use medved_db.Base.{ℕ, zero, suc, ◌<◌, ◌≡◌, refl, ap, List, [], ◌∷◌, Option, none, arith}
use medved_db.Hashmap.Interface.{Keys}
use medved_db.Hashmap.Chain
use medved_db.Hashmap.Chain.{nth}
use medved_db.Hashmap.{Hashmap, clear, empty_all, find}
use medved_db.Hashmap.Placed.{entries}
use medved_db.Hashmap.Refines.{Models}

nth-empty_all {ℓ} : {A : Type ℓ} (bs : List (List A)) (i : ℕ) → nth (empty_all bs) i ≡ []
unfolding empty_all
nth-empty_all [] i = refl
nth-empty_all (b ∷ bs) zero = refl
nth-empty_all (b ∷ bs) (suc i) = nth-empty_all bs i

entries-empty_all {ℓ} : {A : Type ℓ} (bs : List (List A)) → entries (empty_all bs) ≡ 0
unfolding empty_all entries
entries-empty_all [] = refl
entries-empty_all (b ∷ bs) = omega (arith, entries-empty_all bs)

-- After `mdv_hashmap_clear` of a map that has items no key is found, but the size is what it was:
-- the map is no longer well formed, whatever it is to stand for.
pub clear-size :
    {A K : Type 0} (ks : Keys A K) (f : K → Option A) (hm : Hashmap A)
    → Models ks f hm
    → 0 < hm.size
    → ((q : K) → find ks (clear hm) q ≡ none)
      × ((clear hm).size ≡ hm.size)
      × ((g : K → Option A) → ¬ Models ks g (clear hm))
unfolding clear find Chain.find
clear-size ks f hm t pos =
    let cleared : clear hm ≡ record hm { buckets = empty_all hm.buckets } = ground arith in
    (
      λ q. rw cleared (rw nth-empty_all (ground arith)),
      ap (λ h. h.size) cleared,
      λ g m. absurd (
          omega (
            arith,
            m.table.stored,
            ap (λ h. entries h.buckets) cleared,
            ap (λ h. h.size) cleared,
            entries-empty_all hm.buckets,
          )),
    )
