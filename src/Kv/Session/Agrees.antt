-- ===== src/Kv/Session/Agrees.antt =====
-- The handlers of lab_nw/kv-server-pool*/server.c against the sessions of Kv.Session.
use cs.Base.{
  ℕ, ◌<◌, ◌≡◌, refl, sym, ap, ◌∙◌, subst, inl, inr, ◌⊎◌, Bool, true, false, none, List, [], ◌∷◌,
  ◌++◌, arith, Option-cases, length,
}
use mathlib.Core.Path.{ap₂}
use cs.Kv.Memory.{Event, Ptr, Server, c_string}
use cs.Kv.Store.{Input, Variant, create, read, delete}
use cs.Kv.Cells.{
  Cell, Cells, at_unused, last_addr, find, has, is_some, erase, Returns, returns, weaken,
}
use cs.Kv.Create.{stored, create-Appended, create-exists, new_cell}
use cs.Kv.Delete.{delete_log, delete-Erased}
use cs.Kv.Read.{read-found, read-missing}
use cs.Kv.Refine.{value_of}
use cs.Kv.Session.{
  Request, ask_create, ask_read, ask_delete, bound, unbind, Model, payload, apply, goes_on,
  is_before_last, Allowed, news, is_in, AreFresh, entries_of, Agree,
}

has-bound : (key : ℕ) (cs : Cells) → has key cs ≡ is_some (bound key (entries_of cs))
unfolding find
has-bound key [] = refl
has-bound key (c ∷ cs) = ground (arith, has-bound key cs)

bound-entries_of : (key : ℕ) (cs : Cells) → bound key (entries_of cs) ≡ value_of (find key cs)
unfolding find
bound-entries_of key [] = refl
bound-entries_of key (c ∷ cs) = ground (arith, bound-entries_of key cs)

unbind-entries_of : (key : ℕ) (cs : Cells) → unbind key (entries_of cs) ≡ entries_of (erase key cs)
unfolding erase
unbind-entries_of key [] = refl
unbind-entries_of key (c ∷ cs) = ground (arith, unbind-entries_of key cs)

entries_of-append :
    (cs : Cells) (c : Cell) → entries_of (cs ++ c ∷ []) ≡ entries_of cs ++ (c.key, c.value) ∷ []
entries_of-append [] c = refl
entries_of-append (d ∷ ds) c = ap (λ l. (d.key, d.value) ∷ l) (entries_of-append ds c)

length-entries_of : (cs : Cells) → length (entries_of cs) ≡ length cs
length-entries_of [] = refl
length-entries_of (c ∷ cs) = ground (arith, length-entries_of cs)

last_addr-erase :
    (key : ℕ) (p q : Ptr) (c : Cell) (cs : Cells)
    → is_before_last key (entries_of (c ∷ cs)) ≡ true
    → last_addr q (erase key (c ∷ cs)) ≡ last_addr p (c ∷ cs)
unfolding erase
last_addr-erase key p q c [] before = ground (arith, before)
last_addr-erase key p q c (d ∷ ds) before =
    ground (arith, before, last_addr-erase key c.addr c.addr d ds)

no_entries : (cs : Cells) → entries_of cs ≡ [] → cs ≡ []
no_entries [] e = refl
no_entries (c ∷ cs) e = cc

-- DELETE leaves the tail pointer at the last cell.
tail-erase :
    (key : ℕ) (q : Ptr) (cs : Cells)
    → q ≡ last_addr q cs
    → (unbind key (entries_of cs) ≡ []) ⊎ (is_before_last key (entries_of cs) ≡ true)
    → q ≡ last_addr q (erase key cs)
unfolding erase
tail-erase key q [] ends allowed = refl
tail-erase key q (c ∷ cs) ends (inl empty) =
    subst (λ ds. q ≡ last_addr q ds)
      (sym (no_entries (erase key (c ∷ cs)) (sym (unbind-entries_of key (c ∷ cs)) ∙ empty))) refl
tail-erase key q (c ∷ cs) ends (inr before) = ends ∙ sym (last_addr-erase key q q c cs before)

-- What a request leaves: the model's answer and entries, and the free addresses but a new one free.
pub record Answered (v : Variant) (r : Request) (s : Server) (m : Model) (on : Bool) (t : Server)
    : Type 0 where
  pub goes_on_is : on ≡ goes_on r
  pub agree : Agree t (apply v r m)
  pub free_stay : (a : Ptr) → s.heap a ≡ none → is_in a (news (r ∷ [])) ≡ false → t.heap a ≡ none

module _ (v : Variant) (fuel : ℕ) (s : Server) (m : Model) (g : Agree s m)
    (enough : length m.entries < fuel) where
  cells_fit : length g.cells < fuel
  cells_fit = omega (arith, length-entries_of g.cells, ap length g.same_entries)

  found_as : (key : ℕ) → bound key m.entries ≡ value_of (find key g.cells)
  found_as key = ap (bound key) (sym g.same_entries) ∙ bound-entries_of key g.cells

  has_as : (key : ℕ) → has key g.cells ≡ is_some (bound key m.entries)
  has_as key = has-bound key g.cells ∙ ap (λ es. is_some (bound key es)) g.same_entries

  -- A request that is only logged.
  pub logged_Answered :
      (r : Request) (log : List Event)
      → (apply v r m).entries ≡ m.entries
      → (apply v r m).log ≡ log
      → Answered v r s m (goes_on r) (record s { log = log })
  logged_Answered r log same logs = record {
    goes_on_is = refl;
    agree = record {
      cells = g.cells;
      store = record { linked = g.store.linked; ends = g.store.ends };
      same_entries = g.same_entries ∙ sym same;
      same_log = sym logs;
    };
    free_stay = λ a unused o. unused;
  }

  pub create-Answered :
      (key size : ℕ) (i : Input)
      → Allowed v (ask_create key size i) m.entries
      → AreFresh s.heap (i.fresh ∷ [])
      → Returns
          (λ _ t. Answered v (ask_create key size i) s m true t)
          (create v fuel (payload 1 key size) i s)
  unfolding apply
  create-Answered key size i allowed fresh = elim (Option-cases (find key g.cells)) [
    | inr (c, there) ↦
        rw (create-exists v fuel (payload 1 key size) i s g.cells g.store.linked cells_fit there) (
          returns (
            logged_Answered (ask_create key size i) _ (rw (sym (has_as key), there) refl)
              (rw (sym (has_as key), there, g.same_log) refl)))
    | inl absent ↦ elim (Option-cases (stored v (payload 1 key size) i)) [
      | inl bad ↦ absurd (ground (arith, allowed, has_as key, absent, bad))
      | inr (b, kept) ↦
          weaken
            (create-Appended v fuel (payload 1 key size) i b s g.cells g.store cells_fit absent
              fresh.0 fresh.1 kept)
            λ _ t (store, log, same). record {
              goes_on_is = refl;
              agree = record {
                cells = g.cells ++ new_cell (payload 1 key size) i b ∷ [];
                store = store;
                same_entries =
                    rw (sym (has_as key), absent, kept)
                      (entries_of-append g.cells (new_cell (payload 1 key size) i b)
                        ∙ ap (λ es. es ++ (key, b) ∷ []) g.same_entries);
                same_log = log ∙ rw (sym (has_as key), absent, g.same_log) refl;
              };
              free_stay = λ a unused o.
                  same a (ground (arith, o)) (at_unused a g.store.linked unused) ∙ unused;
            }
    ]
  ]

  pub delete-Answered :
      (key : ℕ)
      → Allowed v (ask_delete key) m.entries
      → Returns (λ _ t. Answered v (ask_delete key) s m true t) (delete v fuel (payload 4 key 0) s)
  unfolding apply
  delete-Answered key allowed =
      weaken (delete-Erased v fuel (payload 4 key 0) s g.cells g.store.linked cells_fit) λ _ t e.
        record {
          goes_on_is = refl;
          agree = record {
            cells = erase key g.cells;
            store = record {
              linked = e.linked;
              ends =
                  rw e.tail_is
                    (tail-erase key s.tail g.cells g.store.ends (rw g.same_entries allowed));
            };
            same_entries = sym (unbind-entries_of key g.cells) ∙ ap (unbind key) g.same_entries;
            same_log = e.log_is ∙ ap₂ (delete_log v) (has_as key) g.same_log;
          };
          free_stay = λ a unused o. e.same a (at_unused a g.store.linked unused) ∙ unused;
        }

  pub read-Answered :
      (key : ℕ)
      → Allowed v (ask_read key) m.entries
      → Returns (λ _ t. Answered v (ask_read key) s m true t) (read v fuel (payload 2 key 0) s)
  unfolding apply
  read-Answered key allowed = elim (Option-cases (find key g.cells)) [
    | inl absent ↦
        rw (read-missing v fuel (payload 2 key 0) s g.cells g.store.linked cells_fit absent) (
          returns
            (logged_Answered (ask_read key) _ refl (rw (found_as key, absent, g.same_log) refl)))
    | inr (c, there) ↦ elim (Option-cases (c_string c.value)) [
      | inl bad ↦ absurd (ground (arith, allowed, found_as key, there, bad))
      | inr (bs, good) ↦
          rw
            (read-found v fuel (payload 2 key 0) s c g.cells bs g.store.linked cells_fit there good)
            (returns (
              logged_Answered (ask_read key) _ refl
                (rw (found_as key, there, good, g.same_log) refl)))
    ]
  ]
