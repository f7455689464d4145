-- ===== src/Http/Responses.antt =====
-- What prac/network/q2/simple-webserver answers to a request for a URL: the file of that path.
use cs.Base.{
  ℕ, ◌≡◌, refl, ap, ◌∙◌, Bool, Option, none, some, List, [], ◌∷◌, ◌++◌, le→ltb, if◌then◌else◌,
  Bytes, codes, Lacks, length, take, until_nul, until_nul-append,
}
use mathlib.Core.List.{append-nil}
use native.Mathlib.Nat.{le_refl}
use cs.Http.{
  Stat, World, remove_newlines, get_string, crlf, reply, file_reply, path_reply, root, url_reply,
}

-- The status line and the file that a URL is answered with.
pub record Page : Type 0 where
  pub status : Bytes
  pub path : Bytes

abbrev pub page_of : Option Stat → Bytes → Page
page_of none path = record { status = codes "404 Not Found"; path = codes "html_files/404.html" }
page_of (some st) path = record {
  status = codes "200 OK";
  path = if st.is_dir then path ++ codes "/index.html" else path;
}

abbrev pub page : World → Bytes → Page
page w url = page_of (w.stat (root ++ url)) (root ++ url)

-- The answer with a body: its length is the number of bytes of the body.
abbrev pub message : World → Bytes → Bytes → Bytes
message w status body =
    codes "HTTP/1.0 "
    ++ status
    ++ crlf
    ++ (codes "Date: " ++ remove_newlines w.asctime ++ codes " GMT")
    ++ crlf
    ++ codes "Content-Type: text/html"
    ++ crlf
    ++ codes "Content-Length: "
    ++ w.to_string (length body)
    ++ crlf
    ++ crlf
    ++ body

-- A file that can be read as a whole, and holds no zero.
pub record IsFile (w : World) (path body : Bytes) : Type 0 where
  pub is_dir : Bool
  pub sized : w.stat path ≡ some (record { is_dir = is_dir; size = length body })
  pub held : w.contents path ≡ some body
  pub text : Lacks 0 body

-- Numbers and times are written without zeros.
pub record IsWorld (w : World) : Type 0 where
  pub digits : (n : ℕ) → Lacks 0 (w.to_string n)
  pub time : Lacks 0 w.asctime

take_all {ℓ} : {A : Type ℓ} (xs : List A) → take (length xs) xs ≡ xs
take_all [] = refl
take_all (x ∷ xs) = ap (λ l. x ∷ l) (take_all xs)

pub ended_text : (body : Bytes) → Lacks 0 body → until_nul (body ++ 0 ∷ []) ≡ some body
unfolding until_nul
ended_text body h = until_nul-append body (0 ∷ []) h refl ∙ ap some (append-nil body)

-- The file of a path that is there.
path_reply-IsFile :
    (w : World) (code reason path body : Bytes)
    → IsFile w path body
    → path_reply w code reason path
      ≡ reply (
          get_string w (record {
            status_code = code;
            status_text = reason;
            content_length = w.to_string (length body);
            body = body;
          }))
unfolding path_reply file_reply
path_reply-IsFile w code reason path body f =
    rw (f.sized, path_reply)
      (rw (
        f.held,
        file_reply,
        le→ltb (length body) (length body) (le_refl _),
        take_all body,
        ended_text body f.text,
      ))

pub url_reply-IsFile :
    (w : World) (url body : Bytes)
    → IsFile w (page w url).path body
    → url_reply w url ≡ reply (message w (page w url).status body)
unfolding url_reply get_string
url_reply-IsFile w url body f = go (w.stat (root ++ url)) refl f
  where
    go :
        (o : Option Stat)
        → w.stat (root ++ url) ≡ o
        → IsFile w (page_of o (root ++ url)).path body
        → url_reply w url ≡ reply (message w (page_of o (root ++ url)).status body)
    go none e f = rw (e, url_reply) (path_reply-IsFile w (codes "404") (codes "Not Found") _ body f)
    go (some st) e f = rw (e, url_reply) (path_reply-IsFile w (codes "200") (codes "OK") _ body f)
