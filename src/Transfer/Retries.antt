-- ===== src/Transfer/Retries.antt =====
-- How long the server of the file transfer holds on to a chunk: timeouts are counted, and replies that
-- do not acknowledge it are not.
use cs.Base.{
  ℕ, zero, suc, ◌+◌, ◌<◌, ◌≡◌, refl, Bool, true, false, not, ◌&&◌, ◌||◌, Option, none, some, List,
  [], ◌∷◌, ◌==◌, ltb, if◌then◌else◌, arith,
}
use mathlib.Core.List.{append-nil}
use cs.Transfer.{
  max_retries, minus_one, Ack, Phase, sending, ended, Server, try_again, on_timeout,
  on_select_error, on_reply, packet, Client, next_round, on_packet,
}

-- What select gives while the server waits: a timeout, an error, or a reply.
pub data Event : Type 0 where
  timeout : Event
  failure : Event
  reply : Option Ack → Event

unfoldable pub on_event : ℕ → Event → Server → Server
unfolding on_timeout on_select_error on_reply
on_event size timeout s = on_timeout s
on_event size failure s = on_select_error s
on_event size (reply o) s = on_reply size o s

abbrev pub is_sending : Phase → Bool
is_sending sending = true
is_sending _ = false

-- The loop over retries: the packet is sent again as long as its tests hold.
unfoldable pub serve : ℕ → List Event → Server → Server
unfolding on_event
serve size [] s = s
serve size (e ∷ es) s =
    let next = serve size es (on_event size e s) in if is_sending s.phase then next else s

-- The chunk is not acknowledged.
abbrev pub is_timeout : Event → Bool
is_timeout timeout = true
is_timeout _ = false

abbrev pub is_failure : Event → Bool
is_failure failure = true
is_failure _ = false

abbrev pub acknowledges : ℕ → Event → Bool
acknowledges seq timeout = false
acknowledges seq failure = false
acknowledges seq (reply none) = false
acknowledges seq (reply (some a)) = (a.seq_num == seq) && a.is_ack

abbrev pub timeouts : List Event → ℕ
timeouts [] = 0
timeouts (e ∷ es) = if is_timeout e then timeouts es + 1 else timeouts es

abbrev pub has_failure : List Event → Bool
has_failure [] = false
has_failure (e ∷ es) = is_failure e || has_failure es

abbrev pub NotAcknowledged : ℕ → List Event → Type 0
NotAcknowledged seq [] = Unit
NotAcknowledged seq (e ∷ es) = (acknowledges seq e ≡ false) × NotAcknowledged seq es

serve-ended :
    (size : ℕ) (es : List Event) (s : Server) → is_sending s.phase ≡ false → serve size es s ≡ s
unfolding serve
serve-ended size [] s h = refl
serve-ended size (e ∷ es) s h = rw h

-- An event that does not acknowledge the chunk.
on_event-held :
    (size : ℕ) (e : Event) (s : Server)
    → s.phase ≡ sending
    → s.retry_count < max_retries
    → acknowledges s.seq_num e ≡ false
    → on_event size e s ≡ record s {
      phase =
          if ltb (s.retry_count + (if is_timeout e then 1 else 0)) max_retries && not (is_failure e)
          then sending
          else ended;
      retry_count = s.retry_count + (if is_timeout e then 1 else 0);
    }
unfolding on_event try_again on_select_error
on_event-held size timeout s at few h = ground arith
on_event-held size failure s at few h = ground arith
on_event-held size (reply none) s at few h = ground arith
on_event-held size (reply (some a)) s at few h = ground arith

-- While no reply acknowledges the chunk in hand, the server sends it again and again, and after the
-- third timeout, or an error of select, with no regard to the other replies, it ends; it keeps the chunk,
-- its number and the count of the bytes sent.
pub serve-timeouts :
    (size : ℕ) (es : List Event) (s : Server)
    → s.phase ≡ sending
    → s.retry_count < max_retries
    → NotAcknowledged s.seq_num es
    → ((serve size es s).phase ≡ (
        if ltb (s.retry_count + timeouts es) max_retries && not (has_failure es)
        then sending
        else ended))
      × (packet (serve size es s) ≡ packet s)
      × ((serve size es s).total_sent ≡ s.total_sent)
unfolding serve
serve-timeouts size [] s at few not = ground arith
serve-timeouts size (e ∷ es) s at few not =
    let s1 = on_event size e s in
    let held = on_event-held size e s at few not.0 in
    ground (arith, held, serve-timeouts size es s1, serve-ended size es s1)

-- A round in which the packet arrives, is written as `w` says, and is replied to.
unfoldable pub exchange : ℕ → Option ℕ → Server × Client → Server × Client
unfolding on_packet on_reply
exchange size w ends =
    let r = on_packet size w (packet ends.0) ends.1 in (on_reply size r.1 ends.0, r.0)

unfoldable pub exchanges : ℕ → ℕ → Option ℕ → Server × Client → Server × Client
unfolding exchange
exchanges zero size w ends = ends
exchanges (suc n) size w ends = exchanges n size w (exchange size w ends)

exchange-failed :
    (size : ℕ) (s : Server) (c : Client)
    → s.phase ≡ sending
    → s.retry_count < max_retries
    → s.seq_num < minus_one
    → s.seq_num ≡ c.expected_seq
    → c.running ≡ true
    → c.total_received < size
    → exchange size none (s, c) ≡ (s, c)
unfolding exchange on_packet on_reply try_again next_round
exchange-failed size s c at few small same on more = ground (arith, append-nil c.file)

-- When every write of the client fails, as on a full disk, the exchange of the packet that it expects
-- goes on for ever: after any number of rounds both ends are as before.
pub exchanges-diverges :
    (n size : ℕ) (s : Server) (c : Client)
    → s.phase ≡ sending
    → s.retry_count < max_retries
    → s.seq_num < minus_one
    → s.seq_num ≡ c.expected_seq
    → c.running ≡ true
    → c.total_received < size
    → exchanges n size none (s, c) ≡ (s, c)
unfolding exchanges
exchanges-diverges zero size s c at few small same on more = refl
exchanges-diverges (suc n) size s c at few small same on more =
    rw (exchange-failed size s c at few small same on more)
      (exchanges-diverges n size s c at few small same on more)
