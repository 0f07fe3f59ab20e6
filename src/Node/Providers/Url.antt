-- ===== src/Node/Providers/Url.antt =====
-- `normalize_openai_base_url` of src/mycoagent/node/providers.py, over `urlparse` without its refusal of broken
-- brackets.
use Prim.Native.Char.{Char, code}
use myco_agent.Common.{
  ◌≡◌, refl, String, Bool, false, not, ◌&&◌, ◌||◌, List, [], ◌∷◌, ◌++◌, any, all, contains, is_nil,
  truthy, leb, nat_eq, if◌then◌else◌,
}
use myco_agent.Text.{
  lower_char, Chars, chars, is_char, strip, rstrip, rstrip_by, lower, join, cat, contains_text,
  begins, drop,
}
use myco_agent.Text as Text

-- A text before and from the first character that passes a test.
abbrev pub before_first : (Char → Bool) → Chars → Chars
before_first p [] = []
before_first p (c ∷ cs) = let rest = before_first p cs in if p c then [] else c ∷ rest

abbrev pub from_first : (Char → Bool) → Chars → Chars
from_first p [] = []
from_first p (c ∷ cs) = let rest = from_first p cs in if p c then c ∷ cs else rest

abbrev pub is_letter : Char → Bool
is_letter c = let n = code c in (leb b'A' n && leb n b'Z') || (leb b'a' n && leb n b'z')

abbrev pub in_scheme : Char → Bool
in_scheme c =
    let n = code c in
    is_letter c || (leb b'0' n && leb n b'9') || nat_eq n b'+' || nat_eq n b'-' || nat_eq n b'.'

-- What `urlparse` finds; the tail is the parameters, the query and the fragment, with their marks.
pub record Url : Type 0 where
  pub scheme : Chars
  pub netloc : Chars
  pub path : Chars
  pub tail : Chars

abbrev pub starts_with_letter : Chars → Bool
starts_with_letter [] = false
starts_with_letter (c ∷ cs) = is_letter c

abbrev pub has_scheme : Chars → Bool
has_scheme cs =
    let scheme = before_first (is_char b':') cs in
    not (is_nil (from_first (is_char b':') cs)) && starts_with_letter scheme && all in_scheme scheme

abbrev pub ends_netloc : Char → Bool
ends_netloc c = is_char b'/' c || is_char b'?' c || is_char b'#' c

abbrev pub ends_path : Char → Bool
ends_path c = is_char b'?' c || is_char b'#' c

-- The schemes whose paths may have parameters
abbrev pub uses_params : List String
uses_params =
    ""
    ∷ ("ftp"
        ∷ ("hdl"
            ∷ ("prospero"
                ∷ ("http"
                    ∷ ("https"
                        ∷ ("shttp"
                            ∷ ("rtsp"
                                ∷ ("rtsps"
                                    ∷ ("rtspu"
                                        ∷ ("sip"
                                            ∷ ("sips" ∷ ("mms" ∷ ("sftp" ∷ ("tel" ∷ []))))))))))))))

-- A path, and its parameters from the first semicolon behind the last slash
abbrev pub split_params : Chars → Chars × Chars
split_params [] = ([], [])
split_params (c ∷ cs) =
    let (path, params) = split_params cs in
    if is_char b';' c && not (any (is_char b'/') cs) then ([], c ∷ cs) else (c ∷ path, params)

unfoldable pub urlparse : Chars → Url
urlparse cs =
    let scheme = if has_scheme cs then before_first (is_char b':') cs else [] in
    let rest = if has_scheme cs then drop 1 (from_first (is_char b':') cs) else cs in
    let located = begins (chars "//") rest in
    let netloc = if located then before_first ends_netloc (drop 2 rest) else [] in
    let place = if located then from_first ends_netloc (drop 2 rest) else rest in
    let whole = before_first ends_path place in
    let (path, params) =
      if contains (lower (Text.text scheme)) uses_params then split_params whole else (whole, []) in
    record {
      scheme = chars (lower (Text.text scheme));
      netloc = netloc;
      path = path;
      tail = params ++ from_first ends_path place;
    }

-- `_replace(path="/v1")`, and `urlunparse` of a URL with scheme and host
unfoldable pub with_v1 : Url → String
with_v1 url = Text.text (url.scheme ++ (chars "://" ++ (url.netloc ++ (chars "/v1" ++ url.tail))))

unfoldable pub normalize_openai_base_url : (raw : String) → String
normalize_openai_base_url raw =
    let url = rstrip b'/' (strip raw) in
    let parsed = urlparse (chars url) in
    if not (truthy url)
    then ""
    else if is_nil parsed.scheme || is_nil parsed.netloc
    then url
    else if is_nil (rstrip_by (is_char b'/') parsed.path)
    then rstrip b'/' (with_v1 parsed)
    else url

normalized :
    (normalize_openai_base_url " HTTP://h:8000/ " ≡ "http://h:8000/v1")
    × (normalize_openai_base_url "http://h/api/" ≡ "http://h/api")
    × (normalize_openai_base_url "h:1" ≡ "h:1")
unfolding normalize_openai_base_url urlparse with_v1 strip rstrip lower lower_char
normalized = (refl, refl, refl)
