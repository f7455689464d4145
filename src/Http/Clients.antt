-- ===== src/Http/Clients.antt =====
-- What a client of prac/network/q2/simple-webserver is sent for a GET request, through the buffer of
-- connection_handler.
use cs.Base.{
  ℕ, ◌≡◌, refl, ap, ◌∙◌, true, Option, none, some, [], ◌∷◌, ◌++◌, arith, ◌==◌, if◌then◌else◌,
  Bool-cases, inl, inr, Bytes, codes, Lacks, length, drop, until_nul, until_nul-append,
}
use mathlib.Core.List.{append_assoc}
use cs.Http.{
  Stat, World, remove_newlines, crlf, reply, handle_request, eoh, has_eoh, came, Outcome, wrote,
  write_reply, serve_buffer, serve_client,
}
use cs.Http.Requests.{get_line, http_request-get, has_eoh-append}
use cs.Http.Responses.{page_of, page, message, IsFile, IsWorld, ended_text, url_reply-IsFile}

Lacks-append : (b : ℕ) (xs ys : Bytes) → Lacks b xs → Lacks b ys → Lacks b (xs ++ ys)
Lacks-append b [] ys h k = k
Lacks-append b (x ∷ xs) ys h k = (h.0, Lacks-append b xs ys h.1 k)

remove_newlines-Lacks : (bs : Bytes) → Lacks 0 bs → Lacks 0 (remove_newlines bs)
unfolding remove_newlines
remove_newlines-Lacks [] h = tt
remove_newlines-Lacks (b ∷ bs) h = elim (Bool-cases (b == 10)) [
  | inl e ↦ rw e (remove_newlines-Lacks bs h.1)
  | inr e ↦ rw e (h.0, remove_newlines-Lacks bs h.1)
]

-- Bytes with no zero among them.
record Text : Type 0 where
  bytes : Bytes
  lacks : Lacks 0 bytes

abbrev text : (bs : Bytes) → Lacks 0 bs → Text
text bs h = record { bytes = bs; lacks = h }

infixl 65 ◌<>◌
abbrev ◌<>◌ : Text → Text → Text
a <> b = record {
  bytes = a.bytes ++ b.bytes;
  lacks = Lacks-append 0 a.bytes b.bytes a.lacks b.lacks;
}

message-Lacks :
    (w : World) (status body : Bytes)
    → IsWorld w
    → Lacks 0 status
    → Lacks 0 body
    → Lacks 0 (message w status body)
message-Lacks w status body is h k =
    let line = text crlf (omega arith) in
    let all =
      text (codes "HTTP/1.0 ") (omega arith)
      <> text status h
      <> line
      <> (text (codes "Date: ") (omega arith)
          <> text (remove_newlines w.asctime) (remove_newlines-Lacks w.asctime is.time)
          <> text (codes " GMT") (omega arith))
      <> line
      <> text (codes "Content-Type: text/html") (omega arith)
      <> line
      <> text (codes "Content-Length: ") (omega arith)
      <> text (w.to_string (length body)) (is.digits (length body))
      <> line
      <> line
      <> text body k in
    all.lacks

status-Lacks : (o : Option Stat) (path : Bytes) → Lacks 0 (page_of o path).status
status-Lacks none path = omega arith
status-Lacks (some st) path = omega arith

-- A request for a URL with an end of header in it, whatever stands before and behind that.
abbrev pub request : Bytes → Bytes → Bytes → Bytes
request url head rest = get_line url (head ++ (eoh ++ rest))

request-append :
    (c : ℕ) (url head rest stale : Bytes)
    → request (c ∷ url) head rest ++ stale ≡ request (c ∷ url) head (rest ++ stale)
request-append c url head rest stale = simp append_assoc

request-has_eoh : (c : ℕ) (url head rest : Bytes) → has_eoh (request (c ∷ url) head rest) ≡ true
request-has_eoh c url head rest =
    ap has_eoh (simp append_assoc) ∙ has_eoh-append (codes "GET " ++ ((c ∷ url) ++ 32 ∷ head)) rest

handle_request-get :
    (w : World) (c : ℕ) (url more body : Bytes)
    → IsFile w (page w (c ∷ url)).path body
    → Lacks 32 (c ∷ url)
    → Lacks 10 (c ∷ url)
    → handle_request w (get_line (c ∷ url) more) ≡ reply (message w (page w (c ∷ url)).status body)
unfolding handle_request
handle_request-get w c url more body f h k =
    rw (http_request-get c url more h k, handle_request) (url_reply-IsFile w (c ∷ url) body f)

write_reply-text : (m : Bytes) → Lacks 0 m → write_reply (reply m) ≡ wrote m
unfolding write_reply
write_reply-text m h = rw (ended_text m h, write_reply) refl

-- In a world that writes numbers and times without zeros, when the file of the page is there as a
-- whole and without zeros, a GET request with a URL of one byte or more, without zeros, spaces and
-- newlines, and with an end of header, is answered with that file, which is the one of the URL,
-- index.html of a directory, or, if the path is not there, 404.html, under its status line and with
-- its number of bytes as Content-Length; what the buffer held before does not show, but a zero has to
-- stand in it behind the request.
pub serve_client-get :
    (w : World) (c : ℕ) (url head rest old body : Bytes) {stale : Bytes}
    → IsWorld w
    → IsFile w (page w (c ∷ url)).path body
    → Lacks 32 (c ∷ url)
    → Lacks 10 (c ∷ url)
    → Lacks 0 (request (c ∷ url) head rest)
    → until_nul (drop (length (request (c ∷ url) head rest)) old) ≡ some stale
    → serve_client w old (came (request (c ∷ url) head rest))
      ≡ wrote (message w (page w (c ∷ url)).status body)
unfolding serve_client serve_buffer
serve_client-get w c url head rest old body {stale} is f h k z ends =
    let req = request (c ∷ url) head rest in
    let more = head ++ (eoh ++ (rest ++ stale)) in
    let m = message w (page w (c ∷ url)).status body in
    let clear : Lacks 0 m =
      message-Lacks w (page w (c ∷ url)).status body is (status-Lacks (w.stat _) _) f.text in
    ap (serve_buffer w) (
      until_nul-append req (drop (length req) old) z ends
      ∙ ap some (request-append c url head rest stale))
    ∙ ap
        (λ found.
          if found then write_reply (handle_request w (get_line (c ∷ url) more)) else Outcome.exits)
        (request-has_eoh c url head (rest ++ stale))
    ∙ ap write_reply (handle_request-get w c url more body f h k)
    ∙ write_reply-text m clear
