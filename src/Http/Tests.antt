-- ===== src/Http/Tests.antt =====
-- Requests to prac/network/q2/simple-webserver, and the theorem of Clients at one.
use cs.Base.{
  ◌≡◌, refl, false, none, some, [], ◌∷◌, ◌++◌, arith, if◌then◌else◌, Bytes, codes, eq_bytes,
  until_nul, replicate,
}
use cs.Http.{
  World, split, http_request, root, handle_request, eoh, has_eoh, came, Outcome, wrote, write_reply,
  serve_buffer, serve_client,
}
use cs.Http.Clients.{request, serve_client-get}
use cs.Http.Responses.{message}

abbrev slash_a : Bytes
slash_a = codes "/a"

-- One file, `a`, with two bytes.
abbrev world : World
world = record {
  stat = λ path.
      if eq_bytes path (root ++ slash_a) then some (record { is_dir = false; size = 2 }) else none;
  contents = λ path. some (codes "hi");
  to_string = λ n. codes "2";
  asctime = codes "Thu" ++ 10 ∷ [];
}

abbrev zeros : Bytes
zeros = replicate 64 0

-- A method other than GET ends the server.
serve_client-post :
    serve_client world zeros (came (codes "POST /a HTTP/1.1" ++ eoh)) ≡ Outcome.exits
unfolding serve_client serve_buffer has_eoh handle_request http_request split write_reply until_nul
serve_client-post = refl

-- So does a request whose header is not at its end.
serve_client-part : serve_client world zeros (came (codes "GET /a")) ≡ Outcome.exits
unfolding serve_client serve_buffer has_eoh until_nul
serve_client-part = refl

serve_client-get_example :
    serve_client world zeros (came (request slash_a (codes "HTTP/1.1") []))
    ≡ wrote (message world (codes "200 OK") (codes "hi"))
unfolding until_nul eq_bytes
serve_client-get_example =
    serve_client-get world b'/' (codes "a") (codes "HTTP/1.1") [] zeros (codes "hi") {stale = []}
      (record { digits = λ n. omega arith; time = omega arith })
      (record { is_dir = false; sized = refl; held = refl; text = omega arith }) (omega arith)
      (omega arith) (omega arith) refl
