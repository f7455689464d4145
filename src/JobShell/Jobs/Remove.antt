-- ===== src/JobShell/Jobs/Remove.antt =====
-- Taking a node out of the list of jobs in `updateBackgroundJobsList` of lab_shell/shell/eval.c.
use cs.Base.{◌≡◌, refl, true, false, none, some, [], ◌∷◌, ◌++◌, arith}
use mathlib.Core.List.{append-nil}
use cs.JobShell.Jobs.{
  Ptr, null, Node, node, JobList, Run, ok, ◌>>=◌, put, remove_head, remove_tail, remove_middle,
  remove_node, free_node,
}
use cs.JobShell.Jobs.Segments.{
  Cell, Cells, at, at-append, Distinct, Holds, Seg, Seg-append, Seg-empty, Seg-relink_last,
  Seg-relink_first, Seg-last, Seg-first-at, Seg-last-Holds, Seg-first-Holds, at_cases, not_null,
  load-Holds, set_next-Holds, set_prev-Holds, IsJobs,
}

-- What taking a node out leaves: the list without it, nothing at its address, and free memory free.
abbrev pub Removed : JobList → Cells → Ptr → JobList → Type 0
Removed l cs p t = IsJobs t cs × (t.heap p ≡ none) × ((a : Ptr) → l.heap a ≡ none → t.heap a ≡ none)

-- No address of one part is of the other.
abbrev Apart : Cells → Cells → Type 0
Apart xs ys = (a : Ptr) → at a ys ≡ true → at a xs ≡ false

-- A list around a cell.
pub record Parts (xs : Cells) (c : Cell) (ys : Cells) : Type 0 where
  pub out_left : at c.addr xs ≡ false
  pub out_right : at c.addr ys ≡ false
  pub apart : Apart xs ys
  pub left : Distinct xs
  pub right : Distinct ys
  pub joined : Distinct (xs ++ ys)

pub Distinct-Parts : (xs : Cells) (c : Cell) (ys : Cells) → Distinct (xs ++ c ∷ ys) → Parts xs c ys
Distinct-Parts [] c ys d = record {
  out_left = refl;
  out_right = d.0;
  apart = λ a i. refl;
  left = tt;
  right = d.1;
  joined = d.1;
}
Distinct-Parts (x ∷ xs) c ys d =
    let p = Distinct-Parts xs c ys d.1 in
    let split = at-append x.addr xs (c ∷ ys) in
    record {
      out_left = ground (arith, d.0, split, p.out_left);
      out_right = p.out_right;
      apart = λ a i. ground (arith, at_cases a x.addr ys i, d.0, split, p.apart a i);
      left = (ground (arith, d.0, split), p.left);
      right = p.right;
      joined = (ground (arith, d.0, split, at-append x.addr xs ys), p.joined);
    }

-- A node `c` whose neighbours are at `last` and `next` is taken out and freed.
module _ (l : JobList) (c : Cell) where
  abbrev remove : Node → Run JobList
  remove n = remove_node n l >>= free_node c.addr

  free_node-Holds :
      (t : JobList) {n : Node} → Holds t.heap c.addr n → free_node c.addr t ≡ ok (put t c.addr none)
  unfolding free_node
  free_node-Holds t e = rw (load-Holds e) refl

  remove-only :
      Holds l.heap c.addr (node c.job null null)
      → (t : JobList) × (remove (node c.job null null) ≡ ok t) × Removed l [] c.addr t
  unfolding remove_node remove_head
  remove-only e = (
    put (record l { head = null }) c.addr none,
    rw (free_node-Holds (record l { head = null }) e) refl,
    (refl, ground arith, λ a u. ground (arith, u)),
  )

  remove-first :
      {next : Ptr} {y : Cell} {ys : Cells}
      → Holds l.heap c.addr (node c.job next null)
      → Seg l.heap c.addr next (y ∷ ys) l.tail null
      → at c.addr (y ∷ ys) ≡ false
      → Distinct (y ∷ ys)
      → (t : JobList) × (remove (node c.job next null) ≡ ok t) × Removed l (y ∷ ys) c.addr t
  unfolding remove_node remove_head
  remove-first {next} {y} {ys} e s out d =
      let (n, f) = Seg-first-Holds s in
      let inside : at next (y ∷ ys) ≡ true = Seg-first-at s in
      let apart = at_cases next c.addr (y ∷ ys) inside out in
      let l1 = put (record l { head = next }) next (some (record n { prev = null })) in
      (
        put l1 c.addr none,
        rw
            (
              not_null f,
              set_prev-Holds (record l { head = next }) null f,
              free_node-Holds l1 {n = node c.job next null}
                  (record { ne_null = e.ne_null; held = ground (arith, apart, e.held) }),
            )
            refl,
        (
          (
            Seg-relink_first (put l1 c.addr none).heap null s d
                (λ x i o. ground (arith, at_cases x c.addr (y ∷ ys) i out, o))
                (λ m h. ground (arith, apart, f.held, h)),
            d,
          ),
          ground arith,
          λ a u. ground (arith, f.held, u),
        ),
      )

  remove-last :
      {last : Ptr} {x : Cell} {xs : Cells}
      → Holds l.heap c.addr (node c.job null last)
      → Seg l.heap null l.head (x ∷ xs) last c.addr
      → at c.addr (x ∷ xs) ≡ false
      → Distinct (x ∷ xs)
      → (t : JobList) × (remove (node c.job null last) ≡ ok t) × Removed l (x ∷ xs) c.addr t
  unfolding remove_node remove_tail
  remove-last {last} {x} {xs} e s out d =
      let (n, f) = Seg-last-Holds s in
      let apart = at_cases last c.addr (x ∷ xs) (Seg-last s) out in
      let l1 = put (record l { tail = last }) last (some (record n { next = null })) in
      (
        put l1 c.addr none,
        rw
            (
              not_null f,
              set_next-Holds (record l { tail = last }) null f,
              free_node-Holds l1 {n = node c.job null last}
                  (record { ne_null = e.ne_null; held = ground (arith, apart, e.held) }),
            )
            refl,
        (
          (
            Seg-relink_last (put l1 c.addr none).heap null s d
                (λ a i o. ground (arith, at_cases a c.addr (x ∷ xs) i out, o))
                (λ m h. ground (arith, apart, f.held, h)),
            d,
          ),
          ground arith,
          λ a u. ground (arith, f.held, u),
        ),
      )

  remove-between :
      {last next : Ptr} {x y : Cell} {xs ys : Cells}
      → Holds l.heap c.addr (node c.job next last)
      → Seg l.heap null l.head (x ∷ xs) last c.addr
      → Seg l.heap c.addr next (y ∷ ys) l.tail null
      → Parts (x ∷ xs) c (y ∷ ys)
      → (t : JobList) × (remove (node c.job next last) ≡ ok t)
        × Removed l ((x ∷ xs) ++ y ∷ ys) c.addr t
  unfolding remove_node remove_middle
  remove-between {last} {next} {x} {y} {xs} {ys} e s t d =
      let (n, f) = Seg-last-Holds s in
      let (m, g) = Seg-first-Holds t in
      let last_c = at_cases last c.addr (x ∷ xs) (Seg-last s) d.out_left in
      let next_c = at_cases next c.addr (y ∷ ys) (Seg-first-at t) d.out_right in
      let last_next = at_cases last next (x ∷ xs) (Seg-last s) (d.apart next (Seg-first-at t)) in
      let l1 = put l last (some (record n { next = next })) in
      let l2 = put l1 next (some (record m { prev = last })) in
      (
        put l2 c.addr none,
        rw
            (
              not_null f,
              not_null g,
              set_next-Holds l next f,
              set_prev-Holds l1 {n = m} last
                  (record { ne_null = g.ne_null; held = ground (arith, last_next, g.held) }),
              free_node-Holds l2 {n = node c.job next last}
                  (record { ne_null = e.ne_null; held = ground (arith, last_c, next_c, e.held) }),
            )
            refl,
        (
          (
            Seg-append
                (Seg-relink_last (put l2 c.addr none).heap next s d.left
                  (λ a i o. ground (
                    arith,
                    at_cases a c.addr (x ∷ xs) i d.out_left,
                    at_cases a next (x ∷ xs) i (d.apart next (Seg-first-at t)),
                    o,
                  ))
                  (λ k h. ground (arith, last_c, last_next, f.held, h)))
                (Seg-relink_first (put l2 c.addr none).heap last t d.right
                  (λ a i o. ground (
                    arith,
                    at_cases a c.addr (y ∷ ys) i d.out_right,
                    at_cases last a (x ∷ xs) (Seg-last s) (d.apart a i),
                    o,
                  ))
                  (λ k h. ground (arith, next_c, last_next, g.held, h))),
            d.joined,
          ),
          ground arith,
          λ a u. ground (arith, f.held, g.held, u),
        ),
      )

  -- The node of `c` in the list, whatever stands before and behind it.
  pub remove-Parts :
      (xs ys : Cells) {last next : Ptr}
      → Holds l.heap c.addr (node c.job next last)
      → Seg l.heap null l.head xs last c.addr
      → Seg l.heap c.addr next ys l.tail null
      → Parts xs c ys
      → (t : JobList) × (remove (node c.job next last) ≡ ok t) × Removed l (xs ++ ys) c.addr t
  remove-Parts [] [] e s t d =
      let (first, _) = Seg-empty s in
      let (_, end) = Seg-empty t in rw (first, end) (remove-only (rw (first, end) at e))
  remove-Parts [] (y ∷ ys) e s t d =
      let (first, _) = Seg-empty s in rw first (remove-first (rw first at e) t d.out_right d.right)
  remove-Parts (x ∷ xs) [] e s t d =
      let (_, end) = Seg-empty t in
      let (u, runs, is) = remove-last (rw end at e) s d.out_left d.left in
      rw end (u, runs, rw (append-nil xs) is)
  remove-Parts (x ∷ xs) (y ∷ ys) e s t d = remove-between e s t d
