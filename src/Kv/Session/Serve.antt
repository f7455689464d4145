-- ===== src/Kv/Session/Serve.antt =====
-- The loops of lab_nw/kv-server-pool*/server.c over the commands of a session.
use cs.Base.{
  ℕ, ◌+◌, ◌<◌, ◌≤◌, ◌≡◌, refl, inl, inr, Bool, true, false, none, List, [], ◌∷◌, arith, ◌==◌,
  Bool-cases, Option-cases, length, length-append,
}
use cs.Kv.Memory.{Ptr, Heap, Server, Cmd}
use cs.Kv.Store.{Payload, Input, Variant, pool, pool_rw}
use cs.Kv.Cells.{is_some, Returns, returns, after}
use cs.Kv.Create.{stored}
use cs.Kv.Handlers.{store_command, handle_pool, handle_pool_rw, serve}
use cs.Kv.Session.{
  Request, ask_create, ask_read, ask_delete, ask_connect, ask_disconnect, call, calls, Entries,
  bound, unbind, Model, payload, apply, goes_on, apply_all, Allowed, AreAllowed, news, is_in,
  AreFresh, Agree,
}
use cs.Kv.Session.Agrees.{
  Answered, logged_Answered, create-Answered, delete-Answered, read-Answered,
}

-- One round of a handler that has the commands of the pools.
abbrev Serves : Variant → ℕ → (Payload → Input → Cmd Bool) → Type 0
Serves v fuel h =
    (r : Request) (s : Server) (m : Model) (g : Agree s m)
    → length m.entries < fuel
    → Allowed v r m.entries
    → AreFresh s.heap (news (r ∷ []))
    → Returns (λ on t. Answered v r s m on t) (h (call r).0 (call r).1 s)

handle_pool-Serves : (fuel : ℕ) → Serves pool fuel (handle_pool fuel)
unfolding handle_pool store_command apply
handle_pool-Serves fuel (ask_create key size i) s m g enough allowed fresh =
    after _ (create-Answered pool fuel s m g enough key size i allowed fresh) λ _ t a. returns a
handle_pool-Serves fuel (ask_read key) s m g enough allowed fresh =
    after _ (read-Answered pool fuel s m g enough key allowed) λ _ t a. returns a
handle_pool-Serves fuel (ask_delete key) s m g enough allowed fresh =
    after _ (delete-Answered pool fuel s m g enough key allowed) λ _ t a. returns a
handle_pool-Serves fuel ask_connect s m g enough allowed fresh =
    returns (logged_Answered pool fuel s m g enough ask_connect _ refl (rw g.same_log refl))
handle_pool-Serves fuel ask_disconnect s m g enough allowed fresh =
    returns (logged_Answered pool fuel s m g enough ask_disconnect _ refl (rw g.same_log refl))

handle_pool_rw-Serves : (fuel : ℕ) → Serves pool_rw fuel (handle_pool_rw fuel)
unfolding handle_pool_rw store_command apply
handle_pool_rw-Serves fuel (ask_create key size i) s m g enough allowed fresh =
    after _ (create-Answered pool_rw fuel s m g enough key size i allowed fresh) λ _ t a. returns a
handle_pool_rw-Serves fuel (ask_read key) s m g enough allowed fresh =
    after _ (read-Answered pool_rw fuel s m g enough key allowed) λ _ t a. returns a
handle_pool_rw-Serves fuel (ask_delete key) s m g enough allowed fresh =
    after _ (delete-Answered pool_rw fuel s m g enough key allowed) λ _ t a. returns a
handle_pool_rw-Serves fuel ask_connect s m g enough allowed fresh =
    returns (logged_Answered pool_rw fuel s m g enough ask_connect _ refl (rw g.same_log refl))
handle_pool_rw-Serves fuel ask_disconnect s m g enough allowed fresh =
    returns (logged_Answered pool_rw fuel s m g enough ask_disconnect _ refl (rw g.same_log refl))

length-unbind : (key : ℕ) (es : Entries) → length (unbind key es) ≤ length es
length-unbind key [] = omega arith
length-unbind key ((k, b) ∷ es) = ground (arith, length-unbind key es)

length-apply :
    (v : Variant) (r : Request) (m : Model) → length (apply v r m).entries ≤ length m.entries + 1
unfolding apply
length-apply v (ask_create key size i) m =
    let b = stored v (payload 1 key size) i in
    elim (Bool-cases (is_some (bound key m.entries))) [
      | inl old ↦ rw old (omega arith)
      | inr new ↦ rw new (elim (Option-cases b) [
        | inl bad ↦ rw bad (omega arith)
        | inr (c, good) ↦ rw good (omega (arith, length-append m.entries ((key, c) ∷ [])))
      ])
    ]
length-apply v (ask_read key) m = omega arith
length-apply v (ask_delete key) m = omega (arith, length-unbind key m.entries)
length-apply v ask_connect m = omega arith
length-apply v ask_disconnect m = omega arith

AreFresh-first :
    (h : Heap) (r : Request) (rs : List Request)
    → AreFresh h (news (r ∷ rs))
    → AreFresh h (news (r ∷ []))
AreFresh-first h (ask_create key size i) rs f = (f.0, f.1, refl, tt)
AreFresh-first h (ask_read key) rs f = tt
AreFresh-first h (ask_delete key) rs f = tt
AreFresh-first h ask_connect rs f = tt
AreFresh-first h ask_disconnect rs f = tt

AreFresh-stay :
    (h k : Heap) (used ps : List Ptr)
    → ((a : Ptr) → h a ≡ none → is_in a used ≡ false → k a ≡ none)
    → ((a : Ptr) → is_in a ps ≡ true → is_in a used ≡ false)
    → AreFresh h ps
    → AreFresh k ps
AreFresh-stay h k used [] stay apart f = tt
AreFresh-stay h k used (p ∷ ps) stay apart f = (
  f.0,
  stay p f.1 (apart p (ground arith)),
  f.2,
  AreFresh-stay h k used ps stay (λ a i. apart a (ground (arith, i))) f.3,
)

is_in_cases :
    (a p : Ptr) (ps : List Ptr) → is_in a ps ≡ true → is_in p ps ≡ false → (a == p) ≡ false
is_in_cases a p [] i o = cc
is_in_cases a p (q ∷ ps) i o = ground (arith, is_in_cases a p ps)

-- The addresses for the later requests are fresh when the first is answered.
AreFresh-rest :
    (h k : Heap) (r : Request) (rs : List Request)
    → ((a : Ptr) → h a ≡ none → is_in a (news (r ∷ [])) ≡ false → k a ≡ none)
    → AreFresh h (news (r ∷ rs))
    → AreFresh k (news rs)
AreFresh-rest h k (ask_create key size i) rs stay f =
    AreFresh-stay h k (i.fresh ∷ []) (news rs) stay
      (λ a j. ground (arith, is_in_cases a i.fresh (news rs) j f.2)) f.3
AreFresh-rest h k (ask_read key) rs stay f = AreFresh-stay h k [] (news rs) stay (λ a j. refl) f
AreFresh-rest h k (ask_delete key) rs stay f = AreFresh-stay h k [] (news rs) stay (λ a j. refl) f
AreFresh-rest h k ask_connect rs stay f = AreFresh-stay h k [] (news rs) stay (λ a j. refl) f
AreFresh-rest h k ask_disconnect rs stay f = AreFresh-stay h k [] (news rs) stay (λ a j. refl) f

serve-Agree :
    (v : Variant) (fuel : ℕ) (h : Payload → Input → Cmd Bool)
    → Serves v fuel h
    → (rs : List Request) (s : Server) (m : Model) → Agree s m
    → length m.entries + length rs < fuel
    → AreAllowed v rs m
    → AreFresh s.heap (news rs)
    → Returns (λ _ t. Agree t (apply_all v rs m)) (serve h (calls rs) s)
unfolding serve apply_all
serve-Agree v fuel h serves [] s m g enough allowed fresh = returns g
serve-Agree v fuel h serves (r ∷ rs) s m g enough allowed fresh =
    after _ (serves r s m g (omega arith) allowed.0 (AreFresh-first s.heap r rs fresh)) λ on t a.
      elim (Bool-cases (goes_on r)) [
        | inl more ↦
            rw (a.goes_on_is, more)
              (serve-Agree v fuel h serves rs t (apply v r m) a.agree
                (omega (arith, length-apply v r m)) allowed.1
                (AreFresh-rest s.heap t.heap r rs a.free_stay fresh))
        | inr last ↦ rw (a.goes_on_is, last) (returns a.agree)
      ]

-- The two servers with a pool: whether READ shares the lock.
abbrev pub pool_variant : Bool → Variant
pool_variant true = pool_rw
pool_variant false = pool

abbrev pub pool_handler : Bool → ℕ → Payload → Input → Cmd Bool
pool_handler true = handle_pool_rw
pool_handler false = handle_pool

pool_handler-Serves :
    (shares : Bool) (fuel : ℕ) → Serves (pool_variant shares) fuel (pool_handler shares fuel)
pool_handler-Serves true fuel = handle_pool_rw-Serves fuel
pool_handler-Serves false fuel = handle_pool-Serves fuel

-- In kv-server-pool, and in kv-server-pool-rwlock, where READ shares the lock: from a server whose
-- list and log agree with a model of ordered keys and values, with fuel above the number of entries
-- and requests, a session of CREATE, READ, DELETE, CONNECT and DISCONNECT returns in a server that
-- agrees with the model after those requests, up to the first DISCONNECT: same entries, tail pointer
-- at the last cell, same answers and locks in the same order. It is asked that new values stay in
-- their blocks, that values read have an end, that the newest of several entries is not deleted, and
-- that the new addresses are not null, differ and are not in use.
pub pool_handler-Agree :
    (shares : Bool) (fuel : ℕ) (rs : List Request) (s : Server) (m : Model)
    → Agree s m
    → length m.entries + length rs < fuel
    → AreAllowed (pool_variant shares) rs m
    → AreFresh s.heap (news rs)
    → Returns
        (λ _ t. Agree t (apply_all (pool_variant shares) rs m))
        (serve (pool_handler shares fuel) (calls rs) s)
pool_handler-Agree shares fuel =
    serve-Agree (pool_variant shares) fuel (pool_handler shares fuel)
      (pool_handler-Serves shares fuel)
