-- ===== src/Http.antt =====
-- The web server of prac/network/q2/simple-webserver: http_server.cpp, from a request to the
-- response, and what connection_handler of simple_server.cpp does with a client. The file system, the
-- clock and std::to_string are a World.
pub mod Clients
pub mod Requests
pub mod Responses
mod Tests
use cs.Base.{
  ℕ, ◌+◌, Bool, true, false, ◌||◌, ◌&&◌, Option, none, some, List, [], ◌∷◌, ◌++◌, ◌==◌, ltb,
  if◌then◌else◌, length, take, drop, Bytes, codes, eq_bytes, until_nul,
}

-- `struct stat`
pub record Stat : Type 0 where
  pub is_dir : Bool
  pub size : ℕ

-- `stat` of a path, what `open` and `read` give of it, or `none` if it cannot be opened, the digits of
-- a number, and the time as `asctime` writes it.
pub record World : Type 0 where
  pub stat : Bytes → Option Stat
  pub contents : Bytes → Option Bytes
  pub to_string : ℕ → Bytes
  pub asctime : Bytes

-- `if (!item.empty()) elems.push_back(item)`
unfoldable pub push_item : Bytes → List Bytes → List Bytes
push_item [] rest = rest
push_item (b ∷ bs) rest = (b ∷ bs) ∷ rest

-- The loop over `getline`, with what has been read of an item.
unfoldable pub split_loop : ℕ → Bytes → Bytes → List Bytes
unfolding push_item
split_loop delim item [] = push_item item []
split_loop delim item (c ∷ s) =
    let next = push_item item (split_loop delim [] s) in
    let more = split_loop delim (item ++ c ∷ []) s in if c == delim then next else more

unfoldable pub split : Bytes → ℕ → List Bytes
unfolding split_loop
split s delim = split_loop delim [] s

-- A request of method GET, with its URL; any other ends the program, and one of fewer words is read
-- beyond a vector.
pub data Parsed : Type 0 where
  parsed : (url : Bytes) → Parsed
  exits : Parsed
  fault : Parsed

abbrev pub get : Bytes
get = codes "GET"

unfoldable pub first_line : List Bytes → Parsed
unfolding eq_bytes
first_line [] = fault
first_line (method ∷ []) = fault
first_line (method ∷ url ∷ rest) = if eq_bytes method get then parsed url else exits

unfoldable pub http_request : Bytes → Parsed
unfolding first_line
http_request request = elim (split request 10) [
  | [] ↦ fault
  | line ∷ rest ↦ first_line (split line 32)
]

-- `HTTP_Response`, less the version and the type, which are the same in all.
pub record HttpResponse : Type 0 where
  pub status_code : Bytes
  pub status_text : Bytes
  pub content_length : Bytes
  pub body : Bytes

-- `str_time.erase(remove(..., '\n'), ...)`
unfoldable pub remove_newlines : Bytes → Bytes
remove_newlines [] = []
remove_newlines (b ∷ bs) = let rest = remove_newlines bs in if b == 10 then rest else b ∷ rest

abbrev pub crlf : Bytes
crlf = 13 ∷ 10 ∷ []

unfoldable pub get_string : World → HttpResponse → Bytes
unfolding remove_newlines
get_string w r =
    codes "HTTP/1.0 "
    ++ r.status_code
    ++ codes " "
    ++ r.status_text
    ++ crlf
    ++ (codes "Date: " ++ remove_newlines w.asctime ++ codes " GMT")
    ++ crlf
    ++ codes "Content-Type: text/html"
    ++ crlf
    ++ codes "Content-Length: "
    ++ r.content_length
    ++ crlf
    ++ crlf
    ++ r.body

pub data Reply : Type 0 where
  reply : Bytes → Reply
  exits : Reply
  fault : Reply

-- The file in `char_array`, up to its first zero; what `read` does not fill is not set.
unfoldable pub file_reply : World → Bytes → Bytes → ℕ → Option Bytes → Reply
unfolding get_string until_nul
file_reply w code reason size none = fault
file_reply w code reason size (some bs) =
    if ltb (length bs) size then fault else elim (until_nul (take size bs ++ 0 ∷ [])) [
      | none ↦ fault
      | some body ↦ reply (
          get_string w (record {
            status_code = code;
            status_text = reason;
            content_length = w.to_string size;
            body = body;
          }))
    ]

-- The second `stat`, whose result is not tested.
unfoldable pub path_reply : World → Bytes → Bytes → Bytes → Reply
unfolding file_reply
path_reply w code reason path = elim (w.stat path) [
  | none ↦ fault
  | some st ↦ file_reply w code reason st.size (w.contents path)
]

abbrev pub root : Bytes
root = codes "html_files"

unfoldable pub url_reply : World → Bytes → Reply
unfolding path_reply
url_reply w url = elim (w.stat (root ++ url)) [
  | none ↦ path_reply w (codes "404") (codes "Not Found") (root ++ codes "/404.html")
  | some st ↦
      path_reply w (codes "200") (codes "OK")
        (if st.is_dir then (root ++ url) ++ codes "/index.html" else root ++ url)
]

unfoldable pub handle_request : World → Bytes → Reply
handle_request w req = elim (http_request req) [
  | parsed url ↦ url_reply w url
  | exits ↦ exits
  | fault ↦ fault
]

abbrev pub eoh : Bytes
eoh = crlf ++ crlf

unfoldable pub is_prefix : Bytes → Bytes → Bool
is_prefix [] s = true
is_prefix (p ∷ ps) [] = false
is_prefix (p ∷ ps) (b ∷ bs) = (p == b) && is_prefix ps bs

-- `strstr(buffer, "\r\n\r\n")`
unfoldable pub has_eoh : Bytes → Bool
unfolding is_prefix
has_eoh [] = false
has_eoh (b ∷ bs) = is_prefix eoh (b ∷ bs) || has_eoh bs

-- What `read` gives of a client, and what the client is sent.
pub data Came : Type 0 where
  failed : Came
  came : Bytes → Came

pub data Outcome : Type 0 where
  nothing : Outcome
  wrote : Bytes → Outcome
  exits : Outcome
  fault : Outcome

-- `write(newsockfd, response.c_str(), strlen(response.c_str()))`
unfoldable pub write_reply : Reply → Outcome
unfolding until_nul
write_reply (reply r) = elim (until_nul (r ++ 0 ∷ [])) [ none ↦ fault | some s ↦ wrote s ]
write_reply exits = exits
write_reply fault = fault

-- `buffer` as a C string, with what it held before behind the bytes that came.
unfoldable pub serve_buffer : World → Option Bytes → Outcome
serve_buffer w none = fault
serve_buffer w (some s) = if has_eoh s then write_reply (handle_request w s) else exits

unfoldable pub serve_client : World → Bytes → Came → Outcome
serve_client w old failed = nothing
serve_client w old (came []) = nothing
serve_client w old (came (b ∷ bs)) =
    serve_buffer w (until_nul ((b ∷ bs) ++ drop (length (b ∷ bs)) old))
