-- ===== src/Fat/Free.antt =====
-- The search for a free cluster.
use light_loader.Common.{
  ℕ, zero, suc, ◌+◌, ◌≤◌, ◌<◌, ◌≡◌, ◌≢◌, refl, ap, sym, ◌∙◌, ◌==◌, arith, inl, inr, le-or-lt,
  lt→ltb, ge→ltb, Bool-cases, ==_iff, negsuc,
}
use light_loader.ByteDisk.{ByteDisk}
use light_loader.Fat.Results.{Result, ok, err, fault, out_of_fuel, follow-Ends}
use light_loader.Fat.{FatPrivate, load_cluster, find_free_loop, find_free_cluster}
use light_loader.Fat.Table.{Keeps, Keeps-trans, HasTable}
use light_loader.Fat.Chain.{Holds, load_cluster-Holds}

module _ (io : ByteDisk) (p : FatPrivate) (t : HasTable io p) (tab : ℕ → ℕ) where
  -- The first free cluster from `from` on, or -1 where there is none below the count.
  abbrev pub FirstFree : ℕ → io.Dev → io.Dev × Result ℕ → Type 0
  FirstFree from d (d', ok c) =
      Keeps io d d'
      × (from ≤ c)
      × (c < p.cluster_count)
      × (tab c ≡ 0)
      × ((k : ℕ) → from ≤ k → k < c → tab k ≢ 0)
  FirstFree from d (d', err e) =
      Keeps io d d' × (e ≡ negsuc 0) × ((k : ℕ) → from ≤ k → k < p.cluster_count → tab k ≢ 0)
  FirstFree from d (d', fault) = ⊥
  FirstFree from d (d', out_of_fuel) = ⊥

  FirstFree-next :
      (from : ℕ) (d d1 : io.Dev) (r : io.Dev × Result ℕ)
      → Keeps io d d1
      → tab from ≢ 0
      → FirstFree (from + 1) d1 r
      → FirstFree from d r
  FirstFree-next from d d1 (d', ok c) k ne (k', lo, hi, z, least) = (
    Keeps-trans io k k',
    omega arith,
    hi,
    z,
    λ j a b. elim (le-or-lt j from) [
      | inl first ↦ λ e. ne (ap tab (omega arith) ∙ e)
      | inr later ↦ least j (omega arith) b
    ],
  )
  FirstFree-next from d d1 (d', err e) k ne (k', q, none) = (
    Keeps-trans io k k',
    q,
    λ j a b. elim (le-or-lt j from) [
      | inl first ↦ λ z. ne (ap tab (omega arith) ∙ z)
      | inr later ↦ none j (omega arith) b
    ],
  )
  FirstFree-next from d d1 (d', fault) k ne h = h
  FirstFree-next from d d1 (d', out_of_fuel) k ne h = h

  find_free_loop-FirstFree :
      (fuel from : ℕ) (d : io.Dev)
      → Holds io p t tab d
      → 0 < fuel
      → p.cluster_count < fuel + from
      → FirstFree from d (find_free_loop io p fuel from d)
  unfolding find_free_loop
  find_free_loop-FirstFree zero from d s pos f = absurd (omega arith)
  find_free_loop-FirstFree (suc fuel) from d s pos f = elim (le-or-lt p.cluster_count from) [
    | inl end ↦
        rw (find_free_loop, ge→ltb from p.cluster_count end)
          (record { sound = s.sound; bytes = λ a. refl }, refl, λ k a b. absurd (omega arith))
    | inr more ↦
        rw (find_free_loop, lt→ltb from p.cluster_count more)
          (follow-Ends (FirstFree from d) (load_cluster io p from d) _ _
            (load_cluster-Holds io p t tab from d s (omega arith))
            (λ d' v r. elim (Bool-cases (v == 0)) [
              | inl free ↦ rw free (
                r.0,
                omega arith,
                more,
                sym r.2 ∙ (==_iff v 0).0 free,
                λ k a b. absurd (omega arith),
              )
              | inr used ↦
                  let ne : tab from ≢ 0 = λ e. ground (arith, (==_iff v 0).1 (r.2 ∙ e)) in
                  rw used (
                    FirstFree-next from d d' _ r.0 ne
                      (find_free_loop-FirstFree fuel (from + 1) d' r.1 (omega arith) (omega arith)))
            ]))
  ]

  -- On a sound disk with the table `tab` and at least one cluster, the search ends: with the first
  -- cluster from 2 on and below the count whose value is 0, or with -1 where there is none.
  pub find_free_cluster-FirstFree :
      (d : io.Dev)
      → Holds io p t tab d
      → 0 < p.cluster_count
      → FirstFree 2 d (find_free_cluster io p d)
  unfolding find_free_cluster
  find_free_cluster-FirstFree d s pos =
      find_free_loop-FirstFree p.cluster_count 2 d s pos (omega arith)
