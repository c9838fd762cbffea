-- ===== src/Fat/Write/Grow.antt =====
-- Taking clusters for a write makes the file's chain longer, and leaves all other chains alone.
use light_loader.Common.{
  ℕ, zero, suc, ◌≤◌, ◌<◌, ◌≡◌, ◌≢◌, refl, ap, sym, ◌∙◌, true, false, arith, inl, inr, ◌==◌,
  Bool-cases, List, [], ◌∷◌, ◌++◌, length, negsuc,
}
use mathlib.Core.Path.{subst}
use mathlib.Core.List.{append-nil, append_assoc}
use light_loader.ByteDisk.{ByteDisk}
use light_loader.Fat.{
  FatPrivate, is_end, fat32_cluster_eof, fat32_cluster_limit, set_cluster, find_free_cluster,
}
use light_loader.Fat.Results.{Result, ok, err, fault, out_of_fuel, Ends, follow, follow-Ends}
use light_loader.Fat.Table.{HasTable, entry, Stores, set_cluster-Ends}
use light_loader.Fat.Chain.{Chain, last, Holds, Holds-Keeps}
use light_loader.Fat.Free.{FirstFree, find_free_cluster-FirstFree}
use light_loader.Fat.Write.{or_else, grow_loop}

-- `t'` is `t` with the link from `e` to `f`, and the end of a chain at `f`.
pub record Linked (t t' : ℕ → ℕ) (e f : ℕ) : Type 0 where
  pub to_new : t' e ≡ f
  pub new_end : t' f ≡ fat32_cluster_eof
  pub other : (k : ℕ) → k ≢ e → k ≢ f → t' k ≡ t k

is_end-zero : is_end 0 ≡ true
unfolding is_end
is_end-zero = refl

is_end-eof : is_end fat32_cluster_eof ≡ true
unfolding is_end
is_end-eof = refl

is_end-data : (f : ℕ) → 2 ≤ f → f < fat32_cluster_limit → is_end f ≡ false
unfolding is_end
is_end-data f lo hi = ground arith

Chain-last :
    (t : ℕ → ℕ) (n v c : ℕ) (cs : List ℕ) → Chain t n v (c ∷ cs) → is_end (t (last c cs)) ≡ true
Chain-last t n v c [] (more, e, le, h) = ap (λ x. is_end (t x)) e ∙ h
Chain-last t n v c (x ∷ xs) (more, e, le, h) = Chain-last t n (t v) x xs h

last-snoc : (c f : ℕ) (cs : List ℕ) → last c (cs ++ f ∷ []) ≡ f
last-snoc c f [] = refl
last-snoc c f (x ∷ xs) = last-snoc x f xs

pub Chain-Linked :
    (t t' : ℕ → ℕ) (n v c f : ℕ) (cs : List ℕ)
    → Chain t n v (c ∷ cs)
    → Linked t t' (last c cs) f
    → is_end (t f) ≡ true
    → is_end f ≡ false
    → f ≤ n
    → Chain t' n v (c ∷ cs ++ f ∷ [])
Chain-Linked t t' n v c f [] (more, e, le, end) l free data_f lf =
    let link : t' v ≡ f = ap t' (sym e) ∙ l.to_new in
    (more, e, le, rw link (data_f, refl, lf, ap is_end l.new_end ∙ is_end-eof))
Chain-Linked t t' n v c f (x ∷ xs) (more, e, le, (on, ex, lx, rest)) l free data_f lf =
    let tail = Chain-Linked t t' n (t v) x f xs (on, ex, lx, rest) l free data_f lf in
    let ne_f : v ≢ f = λ (q : v ≡ f). cc in
    let ne_e : v ≢ last x xs =
      λ (q : v ≡ last x xs). cc (Chain-last t n (t v) x xs (on, ex, lx, rest)) in
    (more, e, le, rw (l.other v ne_e ne_f) tail)

module _ (io : ByteDisk) (p : FatPrivate) (t : HasTable io p) where
  Ends-or_else :
      {D A : Type 0} (a : A) (r : D × Result A) (P : D → A → Type 0)
      → Ends r P
      → Ends (or_else a r) P
  Ends-or_else a (d, ok b) P h = h
  Ends-or_else a (d, err e) P h = absurd h
  Ends-or_else a (d, fault) P h = absurd h
  Ends-or_else a (d, out_of_fuel) P h = absurd h

  -- The two stores of a round link the new cluster to the end.
  Stores-Linked :
      (tab : ℕ → ℕ) (d d1 d2 : io.Dev) (e f : ℕ)
      → Holds io p t tab d
      → e ≢ f
      → f < 0x10000000
      → Stores io p e f d d1
      → Stores io p f fat32_cluster_eof d1 d2
      → Linked tab (entry io p d2) e f
  Stores-Linked tab d d1 d2 e f h ne lt s1 s2 = record {
    to_new = s2.other e ne ∙ s1.at ∙ omega arith;
    new_end = s2.at;
    other = λ k ke kf. s2.other k kf ∙ s1.other k ke ∙ h.table k;
  }

  -- The clusters have the value 0.
  abbrev pub AllFree : (ℕ → ℕ) → List ℕ → Type 0
  AllFree tab [] = Unit {0}
  AllFree tab (f ∷ fs) = (tab f ≡ 0) × AllFree tab fs

  -- The table that is left: the chain has `k` more clusters, which were free, and the values of all
  -- others in use but the old end are as they were; or none that the search looks at is free.
  abbrev pub Grown : (ℕ → ℕ) → ℕ → ℕ → List ℕ → ℕ → io.Dev × Result ℕ → Type 0
  Grown tab start c cs k (d', ok end) =
      (fs : List ℕ) × (tab' : ℕ → ℕ) × (length fs ≡ k)
      × AllFree tab fs
      × Holds io p t tab' d'
      × Chain tab' p.cluster_count start (c ∷ cs ++ fs)
      × (end ≡ last c (cs ++ fs))
      × ((j : ℕ) → j ≢ last c cs → tab j ≢ 0 → tab' j ≡ tab j)
  Grown tab start c cs k (d', err e) =
      (tab' : ℕ → ℕ) × (e ≡ negsuc 0)
      × Holds io p t tab' d'
      × ((j : ℕ) → 2 ≤ j → j < p.cluster_count → tab' j ≢ 0)
  Grown tab start c cs k (d', fault) = ⊥
  Grown tab start c cs k (d', out_of_fuel) = ⊥

  -- A link makes no cluster free.
  still_free : (tab tab1 : ℕ → ℕ) (e f j : ℕ) → Linked tab tab1 e f → f ≢ 0 → tab1 j ≡ 0 → tab j ≡ 0
  still_free tab tab1 e f j l pos z = elim (Bool-cases (j == e)) [
    | inl q ↦ let at_e : e ≡ j = ground (arith, q) in absurd (pos (sym l.to_new ∙ ap tab1 at_e ∙ z))
    | inr ne ↦ elim (Bool-cases (j == f)) [
      | inl q ↦
          let at_f : f ≡ j = ground (arith, q) in
          let bad : fat32_cluster_eof ≡ 0 = sym l.new_end ∙ ap tab1 at_f ∙ z in
          absurd (omega (arith, bad))
      | inr nf ↦
          sym
            (l.other j (λ q. absurd (ground (arith, ne, q))) (λ q. absurd (ground (arith, nf, q))))
          ∙ z
    ]
  ]

  AllFree-Linked :
      (tab tab1 : ℕ → ℕ) (e f : ℕ) (fs : List ℕ)
      → Linked tab tab1 e f
      → f ≢ 0
      → AllFree tab1 fs
      → AllFree tab fs
  AllFree-Linked tab tab1 e f [] l pos h = tt
  AllFree-Linked tab tab1 e f (j ∷ fs) l pos (z, h) =
      (still_free tab tab1 e f j l pos z, AllFree-Linked tab tab1 e f fs l pos h)

  Grown-suc :
      (tab tab1 : ℕ → ℕ) (start c f : ℕ) (cs : List ℕ) (k : ℕ) (r : io.Dev × Result ℕ)
      → tab f ≡ 0
      → f ≢ 0
      → Linked tab tab1 (last c cs) f
      → Grown tab1 start c (cs ++ f ∷ []) k r
      → Grown tab start c cs (suc k) r
  Grown-suc tab tab1 start c f cs k (d', ok end) zero_f pos l
        (fs, tab', len, free, h, chain, e, same) =
      (
        f ∷ fs,
        tab',
        ap suc len,
        (zero_f, AllFree-Linked tab tab1 (last c cs) f fs l pos free),
        h,
        rw (← append_assoc cs (f ∷ []) fs) chain,
        rw (← append_assoc cs (f ∷ []) fs) e,
        λ j ne used.
            let ne_f : j ≢ f = λ (q : j ≡ f). used (ap tab q ∙ zero_f) in
            let kept : tab1 j ≡ tab j = l.other j ne ne_f in
            same j (λ q. ne_f (q ∙ last-snoc c f cs)) (λ z. used (sym kept ∙ z)) ∙ kept,
      )
  Grown-suc tab tab1 start c f cs k (d', err e) zero_f pos l h = h
  Grown-suc tab tab1 start c f cs k (d', fault) zero_f pos l h = h
  Grown-suc tab tab1 start c f cs k (d', out_of_fuel) zero_f pos l h = h

  -- On a sound disk with the table tab of at least one cluster, whose clusters' numbers are below the
  -- limit, for a chain that ends at a cluster of the table with a value other than 0: taking k
  -- clusters gives a chain with k more, whose values in the table were all 0, and no other cluster
  -- with a value other than 0 changes its value, but the old end; or the result is -1, and then no
  -- cluster from 2 up to, and not including, the cluster count has the value 0 in the table that is
  -- left.
  pub grow_loop-Grown :
      (tab : ℕ → ℕ) (start c : ℕ) (cs : List ℕ) (k end : ℕ) (d : io.Dev)
      → Holds io p t tab d
      → Chain tab p.cluster_count start (c ∷ cs)
      → end ≡ last c cs
      → end ≤ p.cluster_count
      → tab end ≢ 0
      → 0 < p.cluster_count
      → p.cluster_count < fat32_cluster_limit
      → Grown tab start c cs k (grow_loop io p k end d)
  unfolding grow_loop
  grow_loop-Grown tab start c cs zero end d h chain e le used pos lim =
      ([], tab, refl, tt, h, rw (append-nil cs) chain, rw (append-nil cs) e, λ j ne nz. refl)
  grow_loop-Grown tab start c cs (suc k) end d h chain e le used pos lim =
      go h chain e le used lim (find_free_cluster io p d)
        (find_free_cluster-FirstFree io p t tab d h pos)
        (λ tab1 f d3 h1 ch q lf u.
          grow_loop-Grown tab1 start c (cs ++ f ∷ []) k f d3 h1 ch q lf u pos lim)
    where
      go :
          Holds io p t tab d
          → Chain tab p.cluster_count start (c ∷ cs)
          → end ≡ last c cs
          → end ≤ p.cluster_count
          → tab end ≢ 0
          → p.cluster_count < fat32_cluster_limit
          → (r : io.Dev × Result ℕ) → FirstFree io p t tab 2 d r
          → ((tab1 : ℕ → ℕ) (f : ℕ) (d3 : io.Dev)
              → Holds io p t tab1 d3
              → Chain tab1 p.cluster_count start (c ∷ cs ++ f ∷ [])
              → f ≡ last c (cs ++ f ∷ [])
              → f ≤ p.cluster_count
              → tab1 f ≢ 0
              → Grown tab1 start c (cs ++ f ∷ []) k (grow_loop io p k f d3))
          → Grown tab start c cs (suc k) (
              follow r (λ f d1. follow (or_else tt (set_cluster io p f end d1)) (λ _ d2.
                follow
                  (or_else tt (set_cluster io p fat32_cluster_eof f d2))
                  (λ _ d3. grow_loop io p k f d3))))
      go h chain e le used lim (d1, ok f) (keeps, lo, hi, z, least) ih =
          let h1 = Holds-Keeps io p t tab d d1 h keeps in
          let ne : end ≢ f = λ (q : end ≡ f). used (ap tab q ∙ z) in
          let S = Grown tab start c cs (suc k) in
          follow-Ends S (or_else tt (set_cluster io p f end d1)) _ _
            (Ends-or_else tt (set_cluster io p f end d1) _
              (set_cluster-Ends io p f end d1 t h1.sound le))
            (λ d2 _ s1.
              follow-Ends S (or_else tt (set_cluster io p fat32_cluster_eof f d2)) _ _
                (Ends-or_else tt (set_cluster io p fat32_cluster_eof f d2) _
                  (set_cluster-Ends io p fat32_cluster_eof f d2 t s1.sound (omega arith)))
                (λ d3 _ s2.
                  let l0 = Stores-Linked tab d1 d2 d3 end f h1 ne (omega arith) s1 s2 in
                  let l : Linked tab (entry io p d3) (last c cs) f =
                    subst (λ x. Linked tab (entry io p d3) x f) e l0 in
                  let free : is_end (tab f) ≡ true = ap is_end z ∙ is_end-zero in
                  Grown-suc tab (entry io p d3) start c f cs k _ z (λ q. omega (arith, lo, q)) l
                    (ih (entry io p d3) f d3 (record { sound = s2.sound; table = λ j. refl })
                      (Chain-Linked tab (entry io p d3) p.cluster_count start c f cs chain l free
                        (is_end-data f lo (omega arith)) (omega arith))
                      (sym (last-snoc c f cs)) (omega arith) (λ q. omega (arith, s2.at, q)))))
      go h chain e le used lim (d1, err x) (keeps, q, full) ih =
          (tab, q, Holds-Keeps io p t tab d d1 h keeps, full)
      go h chain e le used lim (d1, fault) b ih = b
      go h chain e le used lim (d1, out_of_fuel) b ih = b
