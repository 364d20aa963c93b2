-- ===== src/Router/Paths/Held.antt =====
-- What the search must still find is held: in the results, or by an element of the queue.
use stellar_dex_agg.Prelude.{
  ℕ, ◌+◌, ◌≤◌, ◌<◌, true, false, ltb, leb, Bool-cases, some, List, [], ◌∷◌, map, ◌≡◌, ap, subst,
  ◌⊎◌, inl, inr, arith, Text, text_eq, contains, length, Any, Any-append_left, Any-append_right,
}
use stellar_dex_agg.Router.Token.{canonical}
use stellar_dex_agg.Router.Graph.{Edge, Adjacency, edges_of}
use stellar_dex_agg.Router.Paths.{
  RoutePath, Partial, Search, after, stop, extend, arrive, found, enqueue, offer, scan, expand,
  search_loop,
}
use stellar_dex_agg.Router.Paths.Rules.{flow_rule, scan_rule, search_loop_rule}
use stellar_dex_agg.Router.Paths.Routes.{OneOf}

-- The path that the search makes of a partial path and the edges after it.
abbrev pub path_of : Partial → Edge → List Edge → RoutePath
path_of at edge [] = arrive at edge
path_of at edge (next ∷ edges) = path_of (extend at edge) next edges

module _ (adjacency : Adjacency) (end_key : Text) (max_hops : ℕ) where
  -- the edges that the search goes along from a partial path
  pub record MayGo (at : Partial) (edge : Edge) : Type 0 where
    pub edge_of : OneOf edge (edges_of at.current_key adjacency)
    pub fresh : contains edge.pool_address at.visited_pools ≡ false
    pub room : length at.pool_path < max_hops

  abbrev pub Completes : Partial → Edge → List Edge → Type 0
  Completes at edge [] =
      MayGo at edge
      × (text_eq (canonical edge.target) end_key ≡ true)
      × (2 ≤ length at.pool_path + 1)
  Completes at edge (next ∷ edges) =
      MayGo at edge
      × (text_eq (canonical edge.target) end_key ≡ false)
      × (contains (canonical edge.target) (map canonical at.token_path) ≡ false)
      × Completes (extend at edge) next edges

  may_go :
      (at : Partial) (edge : Edge) (edges : List Edge) → Completes at edge edges → MayGo at edge
  may_go at edge [] c = c.0
  may_go at edge (next ∷ edges) c = c.0

  module _ (most : ℕ) (p : RoutePath) where
    pub record Pending (at : Partial) : Type 0 where
      pub first : Edge
      pub others : List Edge
      pub completes : Completes at first others
      pub makes : p ≡ path_of at first others

    -- The path is found, or is to come, or the search has had enough.
    unfoldable pub Held : Search → Type 0
    Held s = OneOf p s.results ⊎ (Any Pending s.queue ⊎ (leb most s.multi_hop_count ≡ true))

    offer-Held :
        (at : Partial) (edge : Edge) (s : Search)
        → Held s
        → Held (after (offer end_key most at edge s))
    unfolding offer Held
    offer-Held at edge s h = elim (Bool-cases (contains edge.pool_address at.visited_pools)) [
      | inl again ↦ rw again h
      | inr fresh ↦ rw fresh (elim (Bool-cases (text_eq (canonical edge.target) end_key)) [
        | inl arrived ↦ rw arrived (elim (Bool-cases (ltb (length at.pool_path + 1) 2)) [
          | inl direct ↦ rw direct h
          | inr far ↦ rw far (elim (Bool-cases (leb most (s.multi_hop_count + 1))) [
            | inl enough ↦ rw enough (inr (inr enough))
            | inr more ↦ rw more (longer h)
          ])
        ])
        | inr other ↦
            rw other
              (elim (Bool-cases (contains (canonical edge.target) (map canonical at.token_path))) [
                | inl back ↦ rw back h
                | inr off ↦ rw off (queued h)
              ])
      ])
    ]
      where
        longer : Held s → Held (found at edge s)
        longer (inl f) = inl (Any-append_left _ s.results _ f)
        longer (inr (inl q)) = inr (inl q)
        longer (inr (inr e)) = inr (inr (ground arith))

        queued : Held s → Held (enqueue at edge s)
        queued (inl f) = inl f
        queued (inr (inl q)) = inr (inl (Any-append_left Pending s.queue _ q))
        queued (inr (inr e)) = inr (inr e)

    -- Offered the next edge of the path, the search finds it or queues the longer partial path.
    offer-finds :
        (at : Partial) (edge : Edge) (edges : List Edge) (s : Search)
        → Completes at edge edges
        → p ≡ path_of at edge edges
        → Held (after (offer end_key most at edge s))
    unfolding offer Held
    offer-finds at edge [] s (go_on, arrived, far) e =
        let second : ltb (length at.pool_path + 1) 2 ≡ false = ground arith in
        rw go_on.fresh (
          rw arrived (
            rw second (elim (Bool-cases (leb most (s.multi_hop_count + 1))) [
              | inl enough ↦ rw enough (inr (inr enough))
              | inr more ↦ rw more (inl (Any-append_right _ s.results _ (inl e)))
            ])))
    offer-finds at edge (next ∷ edges) s (go_on, other, off, rest) e = rw go_on.fresh (
        rw other (
          rw off (
            inr (
              inl (
                Any-append_right Pending s.queue _
                  (inl (record { first = next; others = edges; completes = rest; makes = e })))))))

    expand_keeps :
        (s : Search) (at : Partial) → Held s → Held (expand end_key most adjacency max_hops at s)
    unfolding expand
    expand_keeps s at h = elim (Bool-cases (leb max_hops (length at.pool_path))) [
      | inl long ↦ rw long h
      | inr short ↦ rw short (scan_rule Held end_key most at _ s (λ y u _. offer-Held at y u) h)
    ]

    offer-stops :
        (at : Partial) (edge : Edge) (s t : Search)
        → offer end_key most at edge s ≡ stop t
        → leb most t.multi_hop_count ≡ true
    unfolding offer
    offer-stops at edge s t e = ground arith

    scan-finds :
        (at : Partial) (edge : Edge) (edges queue_of : List Edge) (s : Search)
        → OneOf edge queue_of
        → Completes at edge edges
        → p ≡ path_of at edge edges
        → Held (scan end_key most at queue_of s)
    unfolding scan Held
    scan-finds at edge edges [] s m c e = absurd m
    scan-finds at edge edges (x ∷ xs) s m c e =
        flow_rule Held (offer end_key most at x s) (scan end_key most at xs)
          (λ t goes. elim m [
            | inl same ↦
                let offered =
                  subst (λ y. Held (after (offer end_key most at y s))) same
                    (offer-finds at edge edges s c e) in
                scan_rule Held end_key most at xs t (λ y u _. offer-Held at y u)
                  (subst (λ f. Held (after f)) goes offered)
            | inr later ↦ scan-finds at edge edges xs t later c e
          ])
          (λ t stops. inr (inr (offer-stops at x s t stops)))

    expand-Held :
        (s : Search) (at : Partial) (rest : List Partial)
        → s.queue ≡ at ∷ rest
        → Held s
        → Held (expand end_key most adjacency max_hops at (record s { queue = rest }))
    unfolding expand Held
    expand-Held s at rest e (inl f) = expand_keeps (record s { queue = rest }) at (inl f)
    expand-Held s at rest e (inr (inr f)) =
        expand_keeps (record s { queue = rest }) at (inr (inr f))
    expand-Held s at rest e (inr (inl q)) = elim (subst (Any Pending) e q) [
      | inl now ↦
          let go_on = may_go at now.first now.others now.completes in
          let short : leb max_hops (length at.pool_path) ≡ false = ground (arith, go_on.room) in
          rw short (
            scan-finds at now.first now.others (edges_of at.current_key adjacency)
              (record s { queue = rest }) go_on.edge_of now.completes now.makes)
      | inr later ↦ expand_keeps (record s { queue = rest }) at (inr (inl later))
    ]

    -- When the loop has emptied its queue and was not cut, what was held is found.
    pub search_loop-finds :
        (fuel : ℕ) (s t : Search)
        → Held s
        → search_loop end_key most adjacency max_hops fuel s ≡ some t
        → t.queue ≡ []
        → t.multi_hop_count < most
        → OneOf p t.results
    unfolding Held
    search_loop-finds =
        search_loop_rule Held (λ t. t.queue ≡ [] → t.multi_hop_count < most → OneOf p t.results)
          end_key most adjacency max_hops
          (λ s empty h _ less. elim h [
            | inl here ↦ here
            | inr (inl queued) ↦ absurd (subst (Any Pending) empty queued)
            | inr (inr enough) ↦ absurd (ground arith)
          ])
          (λ s at rest e cut h empty less. elim cut [
            | inl enough ↦ absurd (ground arith)
            | inr crowded ↦ absurd (omega (arith, ap length empty))
          ])
          expand-Held
