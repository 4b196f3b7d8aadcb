-- ===== src/Proxylab/Tiny/Texts.antt =====
-- The texts of proxylab/tiny/tiny.c: URIs, the request line and headers of a client, and the headers
-- and error pages of the server.
use introduction_to_computer.Common.{
  ℕ, zero, suc, ◌+◌, ◌-◌, ◌/◌, ◌%◌, ◌^◌, Bool, false, ◌||◌, not, [], ◌∷◌, ◌++◌, Option, some, none,
  ltb, ◌==◌, if◌then◌else◌, Text, length, codes, starts_with, contains, cut_at, drop,
}
use introduction_to_computer.Proxylab.Request.{maxline, skip_space, scan_word}

abbrev pub maxbuf : ℕ
maxbuf = 8192

-- `snprintf` into a buffer of `size` bytes, `none` if the text does not fit.
abbrev pub format : (size : ℕ) → Text → Option Text
format size text = if ltb (length text) size then some text else none

pub data ParseResult : Type 0 where
  parse_error : ParseResult
  parse_static : (filename : Text) → ParseResult
  parse_dynamic : (filename cgiargs : Text) → ParseResult

abbrev pub static_file : Option Text → ParseResult
static_file none = parse_error
static_file (some filename) = parse_static filename

abbrev pub dynamic_file : (filename cgiargs : Option Text) → ParseResult
dynamic_file filename none = parse_error
dynamic_file none (some cgiargs) = parse_error
dynamic_file (some filename) (some cgiargs) = parse_dynamic filename cgiargs

-- The CGI arguments: what stands behind the question mark.
abbrev pub cgi_arguments : Text → Option Text
cgi_arguments [] = some []
cgi_arguments (mark ∷ args) = format maxline args

-- `uri[strnlen(uri, MAXLINE) - 1] == '/'`
unfoldable pub ends_in_slash : Text → Bool
ends_in_slash [] = false
ends_in_slash (c ∷ []) = c == b'/'
ends_in_slash (c ∷ d ∷ cs) = ends_in_slash (d ∷ cs)

unfoldable pub parse_uri : Text → ParseResult
parse_uri uri =
    if not (starts_with (codes "/") uri)
    then parse_error
    else if starts_with (codes "/cgi-bin/") uri
    then (let (path, rest) = cut_at (λ c. c == b'?') uri in
        dynamic_file (format maxline (codes "." ++ path)) (cgi_arguments rest))
    else if contains uri (codes "/../")
    then parse_error
    else static_file (
        format maxline
          (codes "." ++ (uri ++ (if ends_in_slash uri then codes "home.html" else []))))

unfoldable pub get_filetype : Text → Text
get_filetype filename =
    if contains filename (codes ".html")
    then codes "text/html"
    else if contains filename (codes ".gif")
    then codes "image/gif"
    else if contains filename (codes ".png")
    then codes "image/png"
    else if contains filename (codes ".jpg")
    then codes "image/jpeg"
    else codes "text/plain"

-- The decimal digits of a number of at most `fuel + 1` digits.
unfoldable pub digits_of : (fuel n : ℕ) → Text → Text
digits_of zero n rest = (48 + n % 10) ∷ rest
digits_of (suc fuel) n rest =
    let more = digits_of fuel (n / 10) ((48 + n % 10) ∷ rest) in
    if ltb n 10 then (48 + n) ∷ rest else more

abbrev pub decimal : ℕ → Text
decimal n = digits_of 19 n []

-- `%d` for a size that is passed as an `int`.
unfoldable pub int_text : ℕ → Text
int_text size =
    let n = size % 2 ^ 32 in if ltb n (2 ^ 31) then decimal n else b'-' ∷ decimal (2 ^ 32 - n)

-- An `int` that is passed as a `size_t`.
unfoldable pub as_size : ℕ → ℕ
as_size size = let n = size % 2 ^ 32 in if ltb n (2 ^ 31) then n else 2 ^ 64 - (2 ^ 32 - n)

abbrev pub static_head : (filesize : ℕ) → (filetype : Text) → Text
static_head filesize filetype =
    codes "HTTP/1.0 200 OK\r\nServer: Tiny Web Server\r\nConnection: close\r\nContent-Length: "
    ++ (int_text filesize ++ (codes "\r\nContent-Type: " ++ (filetype ++ codes "\r\n\r\n")))

abbrev pub dynamic_head : Text
dynamic_head = codes "HTTP/1.0 200 OK\r\nServer: Tiny Web Server\r\n"

abbrev pub error_body : (errnum shortmsg longmsg : Text) → Text
error_body errnum shortmsg longmsg =
    codes
      "<!DOCTYPE html>\r\n<html>\r\n<head><title>Tiny Error</title></head>\r\n<body bgcolor=\"ffffff\">\r\n<h1>"
    ++ (errnum
        ++ (codes ": "
            ++ (shortmsg
                ++ (codes "</h1>\r\n<p>"
                    ++ (longmsg
                        ++ codes
                            "</p>\r\n<hr /><em>The Tiny Web server</em>\r\n</body></html>\r\n")))))

abbrev pub error_head : (errnum shortmsg : Text) → (bodylen : ℕ) → Text
error_head errnum shortmsg bodylen =
    codes "HTTP/1.0 "
    ++ (errnum
        ++ (codes " "
            ++ (shortmsg
                ++ (codes "\r\nContent-Type: text/html\r\nContent-Length: "
                    ++ (decimal bodylen ++ codes "\r\n\r\n")))))

-- The value of a header, when it is not empty.
abbrev pub has_value : Text → Bool
has_value [] = false
has_value (d ∷ value) = not (d == 13 || d == 10)

abbrev pub has_name_and_value : Text × Text → Bool
has_name_and_value ([], rest) = false
has_name_and_value (c ∷ name, []) = false
has_name_and_value (c ∷ name, colon ∷ rest) = has_value (skip_space rest)

-- `sscanf(buf, "%[^:]: %[^\r\n]", name, value) == 2`
unfoldable pub is_header : Text → Bool
is_header buf = has_name_and_value (cut_at (λ c. c == b':') buf)

-- The character behind `HTTP/1.`.
unfoldable pub scan_version : Text → Option ℕ
scan_version rest =
    let text = skip_space rest in
    if starts_with (codes "HTTP/1.") text
    then elim (drop 7 text) [ [] ↦ none | c ∷ cs ↦ some c ]
    else none

-- `sscanf(buf, "%s %s HTTP/1.%c", method, uri, &version)`, if it finds all three.
abbrev pub with_version : (method uri : Text) → Option ℕ → Option (Text × Text × ℕ)
with_version method uri none = none
with_version method uri (some version) = some (method, uri, version)

abbrev pub with_uri : (method : Text) → Option (Text × Text) → Option (Text × Text × ℕ)
with_uri method none = none
with_uri method (some (uri, rest)) = with_version method uri (scan_version rest)

abbrev pub with_method : Option (Text × Text) → Option (Text × Text × ℕ)
with_method none = none
with_method (some (method, rest)) = with_uri method (scan_word rest)

unfoldable pub scan_request : Text → Option (Text × Text × ℕ)
scan_request buf = with_method (scan_word buf)
