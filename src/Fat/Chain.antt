-- ===== src/Fat/Chain.antt =====
-- Cluster chains: what is cached of a file, and the end of its chain.
use light_loader.Common.{
  ℕ, zero, suc, ◌+◌, ◌≤◌, ◌<◌, ◌≡◌, refl, ap, sym, ◌∙◌, true, false, arith, List, [], ◌∷◌, length,
}
use mathlib.Core.Path.{subst}
use light_loader.ByteDisk.{ByteDisk}
use light_loader.Fat.Results.{Ends, Ends-follow, Ends-weaken, Spins, Spins-follow, Spins-out}
use light_loader.Fat.{
  FatPrivate, is_end, load_cluster, find_end_cluster, length_loop, store_loop, cache_cluster_chain,
}
use light_loader.Fat.Table.{Keeps, Keeps-trans, HasTable, entry, entry-Keeps, load_cluster-Ends}

-- In the table `t` of the clusters up to `n`, the link `v` begins the chain `cs`.
abbrev pub Chain : (ℕ → ℕ) → ℕ → ℕ → List ℕ → Type 0
Chain t n v [] = is_end v ≡ true
Chain t n v (c ∷ cs) = (is_end v ≡ false) × (c ≡ v) × (v ≤ n) × Chain t n (t v) cs

abbrev pub last : ℕ → List ℕ → ℕ
last c [] = c
last c (x ∷ xs) = last x xs

module _ (io : ByteDisk) (p : FatPrivate) (t : HasTable io p) (tab : ℕ → ℕ) where
  -- A sound device whose table is `tab`.
  pub record Holds (d : io.Dev) : Type 0 where
    pub sound : io.Sound d
    pub table : (k : ℕ) → entry io p d k ≡ tab k

  pub Holds-Keeps : (d d' : io.Dev) → Holds d → Keeps io d d' → Holds d'
  Holds-Keeps d d' h k = record {
    sound = k.sound;
    table = λ c. entry-Keeps io p d d' c k ∙ h.table c;
  }

  pub load_cluster-Holds :
      (c : ℕ) (d : io.Dev)
      → Holds d
      → c ≤ p.cluster_count
      → Ends (load_cluster io p c d) (λ d' v. Keeps io d d' × Holds d' × (v ≡ tab c))
  load_cluster-Holds c d h le =
      Ends-weaken (load_cluster io p c d) _ _ (load_cluster-Ends io p c d t h.sound le)
        (λ d' v r. (r.0, Holds-Keeps d d' h r.0, r.1 ∙ h.table c))

  -- Where the chain goes on, `Links` says of the next cluster what `Chain` says of its link.
  abbrev Links : ℕ → List ℕ → Type 0
  Links c cs = (c ≤ p.cluster_count) × Chain tab p.cluster_count (tab c) cs

  Links-next : (c x v : ℕ) (xs : List ℕ) → Links c (x ∷ xs) → v ≡ tab c → Links v xs × (x ≡ v)
  Links-next c x v xs (le, (more, e, lv, h)) q =
      ((rw q lv, subst (λ w. Chain tab p.cluster_count (tab w) xs) (sym q) h), e ∙ sym q)

  length_loop-Ends :
      (fuel c len : ℕ) (cs : List ℕ) (d : io.Dev)
      → Holds d
      → Links c cs
      → length cs < fuel
      → Ends
          (length_loop io p fuel c len d)
          (λ d' r. Keeps io d d' × Holds d' × (r ≡ len + length cs))
  unfolding length_loop
  length_loop-Ends zero c len cs d s h f = absurd (omega arith)
  length_loop-Ends (suc fuel) c len [] d s h f =
      Ends-follow (load_cluster io p c d) _ _ _ (load_cluster-Holds c d s h.0) (λ d' v r.
        let end : is_end v ≡ true = ap is_end r.2 ∙ h.1 in rw end (r.0, r.1, omega arith))
  length_loop-Ends (suc fuel) c len (x ∷ xs) d s h f =
      Ends-follow (load_cluster io p c d) _ _ _ (load_cluster-Holds c d s h.0) (λ d' v r.
        let go_on : is_end v ≡ false = ap is_end r.2 ∙ h.1.0 in
        rw go_on (
          Ends-weaken (length_loop io p fuel v (len + 1) d') _ _
            (length_loop-Ends fuel v (len + 1) xs d' r.1 (Links-next c x v xs h r.2).0
              (omega arith))
            (λ d2 n q. (Keeps-trans io r.0 q.0, q.1, omega (arith, q.2)))))

  store_loop-Ends :
      (c : ℕ) (cs : List ℕ) (d : io.Dev)
      → Holds d
      → Links c cs
      → Ends
          (store_loop io p (suc (length cs)) c d)
          (λ d' r. Keeps io d d' × Holds d' × (r ≡ c ∷ cs))
  unfolding store_loop
  store_loop-Ends c [] d s h =
      Ends-follow (load_cluster io p c d) _ _ _ (load_cluster-Holds c d s h.0)
        (λ d' v r. (r.0, r.1, refl))
  store_loop-Ends c (x ∷ xs) d s h =
      Ends-follow (load_cluster io p c d) _ _ _ (load_cluster-Holds c d s h.0) (λ d' v r.
        let (links, e) = Links-next c x v xs h r.2 in
        Ends-follow (store_loop io p (suc (length xs)) v d') _ _ _
          (store_loop-Ends v xs d' r.1 links)
          (λ d2 rest q.
            (Keeps-trans io r.0 q.0, q.1, ap (λ l. c ∷ l) (q.2 ∙ ap (λ y. y ∷ xs) (sym e)))))

  -- If the table on a sound disk has the chain `c ∷ cs` at the start cluster, and with fuel for it,
  -- the chain that is cached is that one, and the disk's bytes stay.
  pub cache_cluster_chain-Chain :
      (fuel start c : ℕ) (cs : List ℕ) (d : io.Dev)
      → Holds d
      → Chain tab p.cluster_count start (c ∷ cs)
      → length cs < fuel
      → Ends (cache_cluster_chain io p fuel start d) (λ d' r. Keeps io d d' × (r ≡ c ∷ cs))
  unfolding cache_cluster_chain
  cache_cluster_chain-Chain fuel start c cs d s (more, e, le, h) f = rw more (
      Ends-follow (length_loop io p fuel start 1 d) _ _ _
        (length_loop-Ends fuel start 1 cs d s (le, h) f)
        (λ d' n r.
          let size : n ≡ suc (length cs) = omega (arith, r.2) in
          rw size (
            Ends-weaken (store_loop io p (suc (length cs)) start d') _ _
              (store_loop-Ends start cs d' r.1 (le, h))
              (λ d2 l q. (Keeps-trans io r.0 q.0, q.2 ∙ ap (λ y. y ∷ cs) (sym e))))))

  -- Under the same conditions the end of the chain is its last cluster.
  find_end-Links :
      (fuel c : ℕ) (cs : List ℕ) (d : io.Dev)
      → Holds d
      → Links c cs
      → length cs < fuel
      → Ends (find_end_cluster io p fuel c d) (λ d' r. Keeps io d d' × (r ≡ last c cs))
  unfolding find_end_cluster
  find_end-Links zero c cs d s h f = absurd (omega arith)
  find_end-Links (suc fuel) c [] d s h f =
      Ends-follow (load_cluster io p c d) _ _ _ (load_cluster-Holds c d s h.0)
        (λ d' v r. let end : is_end v ≡ true = ap is_end r.2 ∙ h.1 in rw end (r.0, refl))
  find_end-Links (suc fuel) c (x ∷ xs) d s h f =
      Ends-follow (load_cluster io p c d) _ _ _ (load_cluster-Holds c d s h.0) (λ d' v r.
        let go_on : is_end v ≡ false = ap is_end r.2 ∙ h.1.0 in
        let (links, e) = Links-next c x v xs h r.2 in
        rw go_on (
          Ends-weaken (find_end_cluster io p fuel v d') _ _
            (find_end-Links fuel v xs d' r.1 links (omega arith))
            (λ d2 n q. (Keeps-trans io r.0 q.0, q.1 ∙ ap (λ y. last y xs) (sym e)))))

  pub find_end_cluster-Chain :
      (fuel start c : ℕ) (cs : List ℕ) (d : io.Dev)
      → Holds d
      → Chain tab p.cluster_count start (c ∷ cs)
      → length cs < fuel
      → Ends (find_end_cluster io p fuel start d) (λ d' r. Keeps io d d' × (r ≡ last c cs))
  find_end_cluster-Chain fuel start c cs d s (more, e, le, h) f =
      Ends-weaken (find_end_cluster io p fuel start d) _ _
        (find_end-Links fuel start cs d s (le, h) f)
        (λ d' r q. (q.0, q.1 ∙ ap (λ y. last y cs) (sym e)))

  length_loop-Spins :
      (fuel c len : ℕ) (d : io.Dev) (next : ℕ → ℕ)
      → Holds d
      → ((k : ℕ)
          → (next k ≤ p.cluster_count)
            × (is_end (tab (next k)) ≡ false)
            × (tab (next k) ≡ next (suc k)))
      → c ≡ next len
      → Spins (length_loop io p fuel c len d)
  unfolding length_loop
  length_loop-Spins zero c len d next s h e = tt
  length_loop-Spins (suc fuel) c len d next s h e =
      let (le, more, step) = h len in
      Spins-follow (load_cluster io p c d) _ _ (load_cluster-Holds c d s (rw e le)) (λ d' v r.
        let at : v ≡ next (suc len) = r.2 ∙ ap tab e ∙ step in
        let go_on : is_end v ≡ false = ap is_end (r.2 ∙ ap tab e) ∙ more in
        let inc : len + 1 ≡ suc len = omega arith in
        rw (go_on, inc) (length_loop-Spins fuel v (suc len) d' next r.1 h at))

  -- If the links of the table lead from cluster to cluster without end, as on a cycle, no fuel is
  -- enough to cache the chain: the source never returns.
  cache_cluster_chain-Spins :
      (fuel : ℕ) (d : io.Dev) (next : ℕ → ℕ)
      → Holds d
      → ((k : ℕ)
          → (next k ≤ p.cluster_count)
            × (is_end (tab (next k)) ≡ false)
            × (tab (next k) ≡ next (suc k)))
      → is_end (next 1) ≡ false
      → Spins (cache_cluster_chain io p fuel (next 1) d)
  unfolding cache_cluster_chain
  cache_cluster_chain-Spins fuel d next s h first = rw first (
      Spins-out (length_loop io p fuel (next 1) 1 d) _
        (length_loop-Spins fuel (next 1) 1 d next s h refl))
