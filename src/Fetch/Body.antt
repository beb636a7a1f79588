-- ===== src/Fetch/Body.antt =====
-- What the reader of a request of src/api/fetch.cpp is given of its body.
use mathlib.Core.Path.{subst}
use brokit.Prelude.{
  ℕ, suc, ◌≤◌, ◌<◌, ◌≡◌, refl, sym, ap, ◌∙◌, Bool, true, false, List, [], ◌∷◌, ◌++◌, some, Bytes,
  ◌==◌, ==_refl, if◌then◌else◌, append_assoc, append-nil, arith,
}
use brokit.Fetch.Kept.{split_at}
use brokit.Prelude.Table.{lookup, put, lookup-put}
use brokit.Prelude.Tally.{tally, tally-append}
use brokit.Fetch.{
  FetchRequest, FetchEffect, inits, cleans, resolves, rejects, calls, aborts, dangles, gives,
  releases,
}

unfoldable pub gift : ℕ → FetchEffect → Bytes
gift i (gives id c) = if id == i then c else []
gift i _ = []

-- The chunks that the script was given of a request, together.
unfoldable pub given : ℕ → List FetchEffect → Bytes
given i [] = []
given i (e ∷ es) = given i es ++ gift i e

unfoldable pub flat : List Bytes → Bytes
flat [] = []
flat (c ∷ cs) = c ++ flat cs

unfoldable pub aborts_of : ℕ → FetchEffect → Bool
aborts_of i (aborts id) = id == i
aborts_of i _ = false

unfoldable pub is_gift : FetchEffect → Bool
is_gift (gives id c) = true
is_gift _ = false

-- Until a request is aborted, what was given of it and the chunks that are kept are what libcurl wrote.
abbrev pub Flows : ℕ → List (ℕ × FetchRequest) → List FetchEffect → Type 0
Flows next m log =
    ((i : ℕ) → next ≤ i → given i log ≡ [])
    × ((i : ℕ) (r : FetchRequest)
        → lookup i m ≡ some r
        → (i < next) × (tally (aborts_of i) log ≡ 0 → given i log ++ flat r.chunks ≡ r.body))

gift-quiet : (i : ℕ) (e : FetchEffect) → is_gift e ≡ false → gift i e ≡ []
unfolding gift is_gift
gift-quiet i (gives id c) h = absurd (cc)
gift-quiet i (inits id) h = refl
gift-quiet i (cleans id) h = refl
gift-quiet i (resolves id) h = refl
gift-quiet i (rejects id e) h = refl
gift-quiet i (calls id) h = refl
gift-quiet i (aborts id) h = refl
gift-quiet i (dangles id) h = refl
gift-quiet i (releases id held) h = refl

pub given-quiet :
    (i : ℕ) (es log : List FetchEffect) → tally is_gift es ≡ 0 → given i (es ++ log) ≡ given i log
unfolding given tally
given-quiet i [] log h = refl
given-quiet i (e ∷ es) log h =
    rw (gift-quiet i e (ground (arith, h)))
      (append-nil (given i (es ++ log)) ∙ given-quiet i es log (ground (arith, h)))

flat-append : (cs ds : List Bytes) → flat (cs ++ ds) ≡ flat cs ++ flat ds
unfolding flat
flat-append [] ds = refl
flat-append (c ∷ cs) ds =
    ap (λ x. c ++ x) (flat-append cs ds) ∙ sym (append_assoc c (flat cs) (flat ds))

-- A request that is written to.
pub flat-written :
    (g : Bytes) (cs : List Bytes) (body bytes : Bytes)
    → g ++ flat cs ≡ body
    → g ++ flat (cs ++ bytes ∷ []) ≡ body ++ bytes
unfolding flat
flat-written g cs body bytes h =
    ap (λ x. g ++ x) (flat-append cs (bytes ∷ []) ∙ ap (λ x. flat cs ++ x) (append-nil bytes))
    ∙ sym (append_assoc g (flat cs) bytes)
    ∙ ap (λ x. x ++ bytes) h

-- A property of every request behind put, of the one that is put and of the others.
put-split :
    (P : ℕ → FetchRequest → Type 0) (id : ℕ) (r : FetchRequest) (m : List (ℕ × FetchRequest))
    → P id r
    → ((i : ℕ) (x : FetchRequest) → (id == i) ≡ false → lookup i m ≡ some x → P i x)
    → (i : ℕ) (x : FetchRequest) → lookup i (put id r m) ≡ some x
    → P i x
put-split P id r m here others i =
    split_at (λ j. (x : FetchRequest) → lookup j (put id r m) ≡ some x → P j x) id i
      (λ x is_it.
        let both : some r ≡ some x =
          sym (lookup-put id id r m ∙ ap (λ b. if b then some r else lookup id m) (==_refl id))
          ∙ is_it in
        let same : r ≡ x = cc in subst (P id) same here)
      (λ e x is_it.
        others i x e
          (sym (lookup-put id i r m ∙ ap (λ b. if b then some r else lookup i m) e) ∙ is_it))

-- What Flows says of one request.
abbrev Flow : ℕ → List FetchEffect → ℕ → FetchRequest → Type 0
Flow next log i r =
    (i < next) × (tally (aborts_of i) log ≡ 0 → given i log ++ flat r.chunks ≡ r.body)

module _ (next : ℕ) (m : List (ℕ × FetchRequest)) (log : List FetchEffect)
    (flows : Flows next m log) where
  module _ (es : List FetchEffect) (quiet : tally is_gift es ≡ 0) where
    Flow-quiet : (i : ℕ) (r : FetchRequest) → Flow next log i r → Flow next (es ++ log) i r
    Flow-quiet i r (old, equal) = (
      old,
      λ h.
          ap (λ x. x ++ flat r.chunks) (given-quiet i es log quiet)
          ∙ equal (omega (arith, h, tally-append (aborts_of i) es log)),
    )

    -- Nothing is given, and the requests are as they were or gone.
    pub Flows-quiet :
        (m' : List (ℕ × FetchRequest))
        → ((i : ℕ) (r : FetchRequest) → lookup i m' ≡ some r → lookup i m ≡ some r)
        → Flows next m' (es ++ log)
    Flows-quiet m' was =
        let (unborn, alive) = flows in
        (
          λ i h. given-quiet i es log quiet ∙ unborn i h,
          λ i r found. Flow-quiet i r (alive i r (was i r found)),
        )

    -- One request is written back.
    pub Flows-put :
        (id : ℕ) (r r' : FetchRequest)
        → lookup id m ≡ some r
        → (tally (aborts_of id) es ≡ 0
            → given id log ++ flat r.chunks ≡ r.body
            → given id log ++ flat r'.chunks ≡ r'.body)
        → Flows next (put id r' m) (es ++ log)
    Flows-put id r r' found still =
        let (unborn, alive) = flows in
        let (old, equal) = alive id r found in
        (
          λ i h. given-quiet i es log quiet ∙ unborn i h,
          put-split (Flow next (es ++ log)) id r' m
              (
                old,
                λ h.
                    let both = tally-append (aborts_of id) es log in
                    ap (λ y. y ++ flat r'.chunks) (given-quiet id es log quiet)
                    ∙ still (omega (arith, h, both)) (equal (omega (arith, h, both))),
              )
              (λ i x e was. Flow-quiet i x (alive i x was)),
        )

    -- An id is handed out.
    pub Flows-skip : Flows (suc next) m (es ++ log)
    Flows-skip =
        let (unborn, alive) = flows in
        (
          λ i h. given-quiet i es log quiet ∙ unborn i (omega (arith, h)),
          λ i r found.
              let (old, equal) = Flow-quiet i r (alive i r found) in (omega (arith, old), equal),
        )

    pub Flows-new :
        (r : FetchRequest)
        → r.chunks ≡ []
        → r.body ≡ []
        → Flows (suc next) (put next r m) (es ++ log)
    unfolding flat
    Flows-new r no_chunks no_body =
        let (unborn, alive) = Flows-skip in
        (
          unborn,
          put-split (Flow (suc next) (es ++ log)) next r m
              (
                omega arith,
                λ h.
                    rw
                      (
                        no_chunks,
                        no_body,
                        given-quiet next es log quiet,
                        flows.0 next (omega arith),
                      )
                      refl,
              )
              (λ i x e. alive i x),
        )

  -- A chunk is given, and is not kept any longer.
  pub Flows-give :
      (id : ℕ) (r : FetchRequest) (c : Bytes) (cs : List Bytes)
      → lookup id m ≡ some r
      → r.chunks ≡ c ∷ cs
      → Flows next (put id (record r { chunks = cs }) m) (gives id c ∷ log)
  unfolding given gift tally aborts_of flat
  Flows-give id r c cs found chunks =
      let (unborn, alive) = flows in
      let (old, equal) = alive id r found in
      let to_others : (i : ℕ) → (id == i) ≡ false → given i (gives id c ∷ log) ≡ given i log =
        λ i e. rw e (append-nil (given i log)) in
      (
        λ i h. to_others i (ground (arith, h, old)) ∙ unborn i h,
        put-split (Flow next (gives id c ∷ log)) id (record r { chunks = cs }) m
            (
              old,
              λ h. rw (==_refl id) (
                  append_assoc (given id log) c (flat cs)
                  ∙ ap (λ x. given id log ++ flat x) (sym chunks)
                  ∙ equal h),
            )
            (λ i x e was.
              let (before, kept) = alive i x was in
              (before, λ h. ap (λ y. y ++ flat x.chunks) (to_others i e) ∙ kept h)),
      )
