-- ===== src/Proxylab/Tiny/Tests.antt =====
-- Runs of the model of proxylab/tiny/tiny.c, and its theorems at concrete inputs.
use introduction_to_computer.Common.{
  ◌==◌, if◌then◌else◌, ◌≡◌, ◌<◌, ◌^◌, refl, subst, inr, true, false, List, [], ◌∷◌, ◌++◌, some,
  none, Text, codes, same_text, contains, starts_with, cut_at, arith,
}
use introduction_to_computer.Proxylab.Request.{crlf, skip_space}
use introduction_to_computer.Proxylab.Tiny.{
  parse_static, parse_dynamic, parse_uri, ends_in_slash, get_filetype, Stat, Library, static_head,
  is_header, serve,
}
use introduction_to_computer.Proxylab.Tiny.Uri.{
  parts, StaysBelow, parse_uri-StaysBelow, parse_uri-outside,
}
use introduction_to_computer.Proxylab.Tiny.Responses.{IsResponse, IsWorking, fresh}
use introduction_to_computer.Proxylab.Tiny.Serve.{serve-IsResponse}
use introduction_to_computer.Proxylab.Tiny.Files.{request_line, serve_lem}

-- A server on which every file has the bytes of one page.
abbrev page_stat : Stat
page_stat = record { regular = true; readable = true; executable = false; size = 5 }

abbrev library : Library
library = record {
  accepts = λ n. true;
  stat = λ f. some page_stat;
  load = λ f n. if n == 0 then none else some (codes "hello");
  program = λ f a. none;
}

the_stat : (s : Stat) → some page_stat ≡ some s → page_stat ≡ s
the_stat s e = cc e

library-IsWorking : IsWorking library
library-IsWorking = record {
  accepted = λ n. refl;
  small = λ f s e. subst (λ (t : Stat). t.size < 2 ^ 31) (the_stat s e) (omega arith);
  empty = λ f. refl;
  loaded = λ f s e reg rd nz. (
    codes "hello",
    subst (λ (t : Stat). library.load f t.size ≡ some (codes "hello")) (the_stat s e) refl,
    subst (λ (t : Stat). 5 ≡ t.size) (the_stat s e) refl,
  );
}

abbrev headers : List Text
headers = codes "Host: a.b\r\n" ∷ []

home : parse_uri (codes "/") ≡ parse_static (codes "./home.html")
unfolding parse_uri starts_with contains ends_in_slash
home = refl

-- A parent directory in the middle of a URI is refused, one at its end is not.
parents : parse_uri (codes "/a/..") ≡ parse_static (codes "./a/..")
unfolding parse_uri starts_with contains ends_in_slash
parents = refl

-- A header without a value does not count as one.
empty_value : is_header (codes "Accept:\r\n") ≡ false
unfolding is_header cut_at skip_space
empty_value = refl

parse_uri-StaysBelow_example : StaysBelow (parts [] (codes "./home.html"))
parse_uri-StaysBelow_example = parse_uri-StaysBelow (codes "/") (codes "./home.html") home

parse_uri-outside_example :
    parse_uri (codes "/cgi-bin/../../bin/ls") ≡ parse_dynamic (codes "./cgi-bin/../../bin/ls") []
parse_uri-outside_example =
    parse_uri-outside (codes "bin/ls") (refl, (refl, (refl, (refl, (refl, (refl, tt))))))
      (omega arith)

serve-IsResponse_example :
    IsResponse ((serve library (codes "GET / HTTP/1.0\r\n" ∷ crlf ∷ []) fresh).sent)
serve-IsResponse_example =
    serve-IsResponse library library-IsWorking (codes "GET / HTTP/1.0\r\n" ∷ crlf ∷ [])

serve_lem_example :
    (serve library (request_line (codes "/") b'1' ∷ (headers ++ (crlf ∷ []))) fresh).sent
    ≡ static_head 5 (get_filetype (codes "./home.html")) ∷ codes "hello" ∷ []
unfolding same_text is_header cut_at skip_space
serve_lem_example =
    serve_lem library (codes "/") b'1' headers [] (codes "./home.html") page_stat (codes "hello")
      library-IsWorking (λ e. cc e) (refl, tt) (inr refl) (refl, refl, tt) home refl (refl, refl)
      refl
