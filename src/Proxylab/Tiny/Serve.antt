-- ===== src/Proxylab/Tiny/Serve.antt =====
-- The whole of `serve` in proxylab/tiny/tiny.c: one response for each request.
use introduction_to_computer.Common.{
  ℕ, ◌≡◌, ◌∙◌, ◌<◌, ◌≤◌, ◌^◌, inl, inr, refl, sym, ap, subst, Bool, true, false, ◌&&◌, ◌||◌, not,
  List, [], ◌∷◌, ◌++◌, Option, some, none, ◌==◌, if◌then◌else◌, Text, same_text, length, codes,
  arith, append_assoc, ==-same, ==-differ, Bool-cases,
}
use introduction_to_computer.Proxylab.Request.{crlf}
use introduction_to_computer.Proxylab.Tiny.{
  ParseResult, parse_error, parse_static, parse_dynamic, parse_uri, get_filetype, decimal, Stat,
  Connection, Library, static_head, dynamic_head, error_body, error_head, append, clienterror,
  add_output, serve_static, run_program, serve_dynamic, read_requesthdrs, answer_static,
  answer_dynamic, answer, after_headers, after_line, serve, scan_request, is_header,
}
use introduction_to_computer.Proxylab.Tiny.Responses.{
  IsResponse, only_head, serve_static-empty, silent, output, IsWorking, fresh, content_length,
  write_working, int_text-small, serve_static-page, IsResponse-page, error-fits, clienterror-page,
}

ok_head : Text
ok_head = codes "HTTP/1.0 200 OK\r\nServer: Tiny Web Server\r\nConnection: close\r\n"

static_tail : Text → Text
static_tail f = codes "Content-Type: " ++ (get_filetype f ++ codes "\r\n\r\n")

static_head-length :
    (n : ℕ) (f bytes : Text)
    → n < 2 ^ 31
    → length bytes ≡ n
    → static_head n (get_filetype f) ≡ ok_head ++ (content_length bytes ++ static_tail f)
unfolding ok_head static_tail
static_head-length n f bytes small len =
    let after = codes "Content-Type: " ++ (get_filetype f ++ codes "\r\n\r\n") in
    let before = codes "HTTP/1.0 200 OK\r\nServer: Tiny Web Server\r\nConnection: close\r\n" in
    ap (λ (t : Text). before ++ (codes "Content-Length: " ++ (t ++ (codes "\r\n" ++ after))))
      (int_text-small n small ∙ ap decimal (sym len))
    ∙ ap (λ (t : Text). before ++ (codes "Content-Length: " ++ t))
        (sym (append_assoc (decimal (length bytes)) (codes "\r\n") after))

-- The header behind the texts that come before it.
module _ (l : Library) (w : IsWorking l) where
  error-IsResponse :
      (errnum shortmsg longmsg before : Text)
      → (length errnum ≤ 3) × (length shortmsg ≤ 20) × (length longmsg ≤ 60)
      → ((t : Text)
          → codes "HTTP/1.0 "
              ++ (errnum
                  ++ (codes " "
                      ++ (shortmsg
                          ++ (codes "\r\nContent-Type: text/html\r\nContent-Length: " ++ t))))
            ≡ before ++ (codes "Content-Length: " ++ t))
      → IsResponse ((clienterror l errnum shortmsg longmsg fresh).sent)
  error-IsResponse errnum shortmsg longmsg before short prefix =
      let body = error_body errnum shortmsg longmsg in
      let number = decimal (length body) in
      let (bl, hl) = error-fits errnum shortmsg longmsg short in
      IsResponse-page _ (error_head errnum shortmsg (length body)) body before (codes "\r\n")
        (clienterror-page l errnum shortmsg longmsg w bl hl)
        (prefix (number ++ codes "\r\n\r\n")
          ∙ ap (λ (t : Text). before ++ (codes "Content-Length: " ++ t))
              (sym (append_assoc number (codes "\r\n") (codes "\r\n"))))

  static-IsResponse :
      (f : Text) (s : Stat)
      → l.stat f ≡ some s
      → s.regular ≡ true
      → s.readable ≡ true
      → IsResponse ((serve_static l f (s.size) fresh).sent)
  static-IsResponse f s e reg rd = elim (Bool-cases (s.size == 0)) [
    | inl zero_size ↦
        let is = ==-same s.size 0 zero_size in
        subst IsResponse
          (sym (
            ap (λ (n : ℕ). (serve_static l f n fresh).sent) is
            ∙ serve_static-empty l f w
            ∙ ap (λ (h : Text). h ∷ []) (static_head-length 0 f [] (omega arith) refl)))
          (only_head ok_head (static_tail f))
    | inr some_bytes ↦
        let small = w.small f s e in
        let (bytes, load, len) = w.loaded f s e reg rd (==-differ s.size 0 some_bytes) in
        IsResponse-page _ (static_head s.size (get_filetype f)) bytes ok_head (static_tail f)
          (serve_static-page l f s.size bytes w small load)
          (static_head-length s.size f bytes small len)
  ]

  dynamic-IsResponse : (f args : Text) → IsResponse ((serve_dynamic l f args fresh).sent)
  unfolding serve_dynamic run_program add_output
  dynamic-IsResponse f args =
      subst (λ (r : Bool × Connection). IsResponse ((run_program l f args r).sent))
        (sym (write_working l dynamic_head fresh w)) (added (l.program f args))
    where
      added :
          (o : Option (List Text)) → IsResponse ((add_output o (append fresh dynamic_head)).sent)
      added none = output []
      added (some texts) = output texts

  bad_request :
      (longmsg : Text)
      → length longmsg ≤ 60
      → IsResponse ((clienterror l (codes "400") (codes "Bad Request") longmsg fresh).sent)
  bad_request longmsg ll =
      error-IsResponse (codes "400") (codes "Bad Request") longmsg
        (codes "HTTP/1.0 400 Bad Request\r\nContent-Type: text/html\r\n")
        (omega arith, omega arith, ll) (λ t. refl)

  not_found : IsResponse (
      (clienterror l
        (codes "404")
        (codes "Not found")
        (codes "Tiny couldn't find this file")
        fresh).sent)
  not_found =
      error-IsResponse (codes "404") (codes "Not found") (codes "Tiny couldn't find this file")
        (codes "HTTP/1.0 404 Not found\r\nContent-Type: text/html\r\n")
        (omega arith, omega arith, omega arith) (λ t. refl)

  forbidden :
      (longmsg : Text)
      → length longmsg ≤ 60
      → IsResponse ((clienterror l (codes "403") (codes "Forbidden") longmsg fresh).sent)
  forbidden longmsg ll =
      error-IsResponse (codes "403") (codes "Forbidden") longmsg
        (codes "HTTP/1.0 403 Forbidden\r\nContent-Type: text/html\r\n")
        (omega arith, omega arith, ll) (λ t. refl)

  not_implemented : IsResponse (
      (clienterror l
        (codes "501")
        (codes "Not Implemented")
        (codes "Tiny does not implement this method")
        fresh).sent)
  not_implemented =
      error-IsResponse (codes "501") (codes "Not Implemented")
        (codes "Tiny does not implement this method")
        (codes "HTTP/1.0 501 Not Implemented\r\nContent-Type: text/html\r\n")
        (omega arith, omega arith, omega arith) (λ t. refl)

  answer_static-IsResponse :
      (f : Text) (o : Option Stat) → l.stat f ≡ o → IsResponse ((answer_static l f o fresh).sent)
  unfolding answer_static
  answer_static-IsResponse f none e = not_found
  answer_static-IsResponse f (some s) e =
      permitted s.regular s.readable (λ reg rd. static-IsResponse f s e reg rd)
    where
      permitted :
          (reg rd : Bool)
          → (reg ≡ true → rd ≡ true → IsResponse ((serve_static l f (s.size) fresh).sent))
          → IsResponse (
              (if not reg || not rd
                then clienterror l
                    (codes "403")
                    (codes "Forbidden")
                    (codes "Tiny couldn't read the file")
                    fresh
                else serve_static l f (s.size) fresh).sent)
      permitted true true file = file refl refl
      permitted true false file = forbidden (codes "Tiny couldn't read the file") (omega arith)
      permitted false rd file = forbidden (codes "Tiny couldn't read the file") (omega arith)

  answer_dynamic-IsResponse :
      (f args : Text) (o : Option Stat) → IsResponse ((answer_dynamic l f args o fresh).sent)
  unfolding answer_dynamic
  answer_dynamic-IsResponse f args none = not_found
  answer_dynamic-IsResponse f args (some s) = permitted (not s.regular || not s.executable)
    where
      permitted :
          (refused : Bool)
          → IsResponse (
              (if refused
                then clienterror l
                    (codes "403")
                    (codes "Forbidden")
                    (codes "Tiny couldn't run the CGI program")
                    fresh
                else serve_dynamic l f args fresh).sent)
      permitted true = forbidden (codes "Tiny couldn't run the CGI program") (omega arith)
      permitted false = dynamic-IsResponse f args

  answer-IsResponse : (r : ParseResult) → IsResponse ((answer l r fresh).sent)
  unfolding answer
  answer-IsResponse parse_error =
      bad_request (codes "Tiny could not parse the request URI") (omega arith)
  answer-IsResponse (parse_static f) = answer_static-IsResponse f (l.stat f) refl
  answer-IsResponse (parse_dynamic f args) = answer_dynamic-IsResponse f args (l.stat f)

  headers-IsResponse :
      (uri : Text) (lines : List Text)
      → IsResponse ((after_headers l uri (read_requesthdrs l lines fresh)).sent)
  unfolding after_headers read_requesthdrs
  headers-IsResponse uri [] = silent
  headers-IsResponse uri (buf ∷ lines) =
      line (same_text buf crlf) (is_header buf) (headers-IsResponse uri lines)
    where
      line :
          (last header : Bool)
          → IsResponse ((after_headers l uri (read_requesthdrs l lines fresh)).sent)
          → IsResponse (
              (after_headers l uri (
                if last
                then (false, fresh)
                else if header
                then read_requesthdrs l lines fresh
                else (
                  true,
                  clienterror l
                      (codes "400")
                      (codes "Bad Request")
                      (codes "Tiny could not parse request headers")
                      fresh,
                ))).sent)
      line true header rest = answer-IsResponse (parse_uri uri)
      line false true rest = rest
      line false false rest =
          bad_request (codes "Tiny could not parse request headers") (omega arith)

  line-IsResponse :
      (lines : List Text) (request : Option (Text × Text × ℕ))
      → IsResponse ((after_line l lines request fresh).sent)
  unfolding after_line
  line-IsResponse lines none = bad_request (codes "Tiny received a malformed request") (omega arith)
  line-IsResponse lines (some (method, uri, version)) =
      checked (not (version == b'0') && not (version == b'1'))
        (not (same_text method (codes "GET")))
    where
      checked :
          (malformed other : Bool)
          → IsResponse (
              (if malformed
                then clienterror l
                    (codes "400")
                    (codes "Bad Request")
                    (codes "Tiny received a malformed request")
                    fresh
                else if other
                then clienterror l
                    (codes "501")
                    (codes "Not Implemented")
                    (codes "Tiny does not implement this method")
                    fresh
                else after_headers l uri (read_requesthdrs l lines fresh)).sent)
      checked true other = bad_request (codes "Tiny received a malformed request") (omega arith)
      checked false true = not_implemented
      checked false false = headers-IsResponse uri lines

  -- If all writes succeed and the readable files are given in full, with sizes that an int can hold,
  -- then whatever the client sends, it gets one response at most: either nothing, or headers with a
  -- Content-Length that is the number of bytes of the body behind them (none for an empty file), or the headers that precede
  -- the output of a program.
  pub serve-IsResponse : (lines : List Text) → IsResponse ((serve l lines fresh).sent)
  unfolding serve
  serve-IsResponse [] = silent
  serve-IsResponse (buf ∷ lines) = line-IsResponse lines (scan_request buf)
