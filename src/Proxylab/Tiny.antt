-- ===== src/Proxylab/Tiny.antt =====
-- The web server of proxylab/tiny/tiny.c. The lines that `rio_readlineb` returns up to its first
-- failure, the results of `rio_writen` and `stat`, the bytes of a file that is opened and mapped, and
-- what a CGI program writes are arguments.
mod Texts
pub mod Uri
pub mod Responses
pub mod Serve
pub mod Files
mod Tests
use introduction_to_computer.Common.{
  ℕ, zero, suc, ◌+◌, ◌-◌, ◌/◌, ◌%◌, ◌^◌, Bool, true, false, ◌||◌, ◌&&◌, not, List, [], ◌∷◌, ◌++◌,
  Option, some, none, ltb, leb, ◌==◌, if◌then◌else◌, Text, same_text, length, codes, starts_with,
  contains, cut_at, drop,
}
use introduction_to_computer.Proxylab.Request.{maxline, crlf, skip_space, scan_word}
unfoldable pub use Texts.*

-- What `stat` says of a file.
pub record Stat : Type 0 where
  pub regular : Bool
  pub readable : Bool
  pub executable : Bool
  pub size : ℕ

-- What was sent on the connection, and how often `rio_writen` was called.
pub record Connection : Type 0 where
  pub sent : List Text
  pub writes : ℕ

-- The results of the library: whether the n-th write succeeds, the files, the bytes of a file that
-- `open` and `mmap` give, and what a program that `fork` starts writes.
pub record Library : Type 0 where
  pub accepts : ℕ → Bool
  pub stat : Text → Option Stat
  pub load : Text → ℕ → Option Text
  pub program : (filename cgiargs : Text) → Option (List Text)

abbrev pub append : Connection → Text → Connection
append c text = record { sent = c.sent ++ (text ∷ []); writes = c.writes + 1 }

-- `rio_writen(fd, text, n) >= 0`, and the connection behind it.
unfoldable pub write : Library → Text → Connection → Bool × Connection
write l text c =
    if l.accepts c.writes
    then (true, append c text)
    else (false, record c { writes = c.writes + 1 })

-- A write behind another one, if that one succeeded.
unfoldable pub write_next : Library → Text → Bool × Connection → Connection
write_next l text (false, c) = c
write_next l text (true, c) = (write l text c).1

unfoldable pub send_error : Library → (body : Text) → (head : Option Text) → Connection → Connection
send_error l body none c = c
send_error l body (some head) c = write_next l body (write l head c)

unfoldable pub error_page :
    Library → (errnum shortmsg : Text) → (body : Option Text) → Connection → Connection
error_page l errnum shortmsg none c = c
error_page l errnum shortmsg (some body) c =
    send_error l body (format maxline (error_head errnum shortmsg (length body))) c

unfoldable pub clienterror : Library → (errnum shortmsg longmsg : Text) → Connection → Connection
clienterror l errnum shortmsg longmsg c =
    error_page l errnum shortmsg (format maxbuf (error_body errnum shortmsg longmsg)) c

-- The file behind the response headers, if it can be opened and mapped.
unfoldable pub send_bytes : Library → Option Text → Connection → Connection
send_bytes l none c = c
send_bytes l (some bytes) c = (write l bytes c).1

unfoldable pub send_file :
    Library → (filename : Text) → (filesize : ℕ) → Bool × Connection → Connection
send_file l filename filesize (false, c) = c
send_file l filename filesize (true, c) = send_bytes l (l.load filename (as_size filesize)) c

unfoldable pub send_static :
    Library → (filename : Text) → (filesize : ℕ) → (head : Option Text) → Connection → Connection
send_static l filename filesize none c = c
send_static l filename filesize (some head) c = send_file l filename filesize (write l head c)

unfoldable pub serve_static : Library → (filename : Text) → (filesize : ℕ) → Connection → Connection
serve_static l filename filesize c =
    send_static l filename filesize (format maxbuf (static_head filesize (get_filetype filename))) c

-- What the program writes, if `fork` starts one.
unfoldable pub add_output : Option (List Text) → Connection → Connection
add_output none c = c
add_output (some output) c = record c { sent = c.sent ++ output }

unfoldable pub run_program : Library → (filename cgiargs : Text) → Bool × Connection → Connection
run_program l filename cgiargs (false, c) = c
run_program l filename cgiargs (true, c) = add_output (l.program filename cgiargs) c

unfoldable pub serve_dynamic : Library → (filename cgiargs : Text) → Connection → Connection
serve_dynamic l filename cgiargs c = run_program l filename cgiargs (write l dynamic_head c)

-- Whether an error occurred, and the connection.
unfoldable pub read_requesthdrs : Library → List Text → Connection → Bool × Connection
read_requesthdrs l [] c = (true, c)
read_requesthdrs l (buf ∷ lines) c =
    if same_text buf crlf
    then (false, c)
    else if is_header buf
    then read_requesthdrs l lines c
    else (
      true,
      clienterror l (codes "400") (codes "Bad Request")
          (codes "Tiny could not parse request headers") c,
    )

unfoldable pub answer_static : Library → (filename : Text) → Option Stat → Connection → Connection
answer_static l filename none c =
    clienterror l (codes "404") (codes "Not found") (codes "Tiny couldn't find this file") c
answer_static l filename (some sbuf) c =
    if not sbuf.regular || not sbuf.readable
    then clienterror l (codes "403") (codes "Forbidden") (codes "Tiny couldn't read the file") c
    else serve_static l filename sbuf.size c

unfoldable pub answer_dynamic :
    Library → (filename cgiargs : Text) → Option Stat → Connection → Connection
answer_dynamic l filename cgiargs none c =
    clienterror l (codes "404") (codes "Not found") (codes "Tiny couldn't find this file") c
answer_dynamic l filename cgiargs (some sbuf) c =
    if not sbuf.regular || not sbuf.executable
    then clienterror l (codes "403") (codes "Forbidden") (codes "Tiny couldn't run the CGI program")
        c
    else serve_dynamic l filename cgiargs c

-- What `serve` does with the result of `parse_uri`.
unfoldable pub answer : Library → ParseResult → Connection → Connection
answer l parse_error c =
    clienterror l (codes "400") (codes "Bad Request") (codes "Tiny could not parse the request URI")
      c
answer l (parse_static filename) c = answer_static l filename (l.stat filename) c
answer l (parse_dynamic filename cgiargs) c = answer_dynamic l filename cgiargs (l.stat filename) c

unfoldable pub after_headers : Library → (uri : Text) → Bool × Connection → Connection
after_headers l uri (true, c) = c
after_headers l uri (false, c) = answer l (parse_uri uri) c

unfoldable pub after_line : Library → List Text → Option (Text × Text × ℕ) → Connection → Connection
after_line l lines none c =
    clienterror l (codes "400") (codes "Bad Request") (codes "Tiny received a malformed request") c
after_line l lines (some (method, uri, version)) c =
    if not (version == b'0') && not (version == b'1')
    then clienterror l (codes "400") (codes "Bad Request")
        (codes "Tiny received a malformed request") c
    else if not (same_text method (codes "GET"))
    then clienterror l (codes "501") (codes "Not Implemented")
        (codes "Tiny does not implement this method") c
    else after_headers l uri (read_requesthdrs l lines c)

unfoldable pub serve : Library → List Text → Connection → Connection
serve l [] c = c
serve l (buf ∷ lines) c = after_line l lines (scan_request buf) c
