-- ===== src/WebReader/Fetch.antt =====
-- The requests of `fetch_public_resource` and their redirects (services/app/ai/web_reader.py).
use Prim.Native.String.{count}
use deep_foundry.Base.{
  ℕ, zero, suc, ◌+◌, String, str_eq, Bool, false, ◌&&◌, ◌||◌, Option, none, some, List, [], ◌∷◌,
  ◌++◌, any, ltb, leb, ◌==◌, if◌then◌else◌,
}
use deep_foundry.Base.Dict.{Dict, lookup, get_or_default}
use deep_foundry.Base.Text.{append_text}
use deep_foundry.WebReader.{
  World, Target, WebPageError, time_limit, blocked, redirect_blocked, too_large, bad_limit,
  request_failed, no_location, too_many_redirects, downgrade, bad_status, bad_encoding, bad_type,
  Checked, ok, error, validated_target, blocked_by_domain_policy,
}

-- A connection that is opened, with the URL that is asked for.
pub record Connection : Type 0 where
  pub url : String
  pub target : Target

-- What the peer answers: its chunks of the body, each with whether the deadline passed before it is
-- read, and the length it announces (`none`: none, or no number). `none` stands for an answer that
-- fails with an exception of the network.
pub record PageAnswer : Type 0 where
  pub status : ℕ
  pub headers : Dict String
  pub announced : Option ℕ
  pub chunks : List (Bool × String)

-- The network, the clock, the caller's limits and the settings. Times are counted in steps of the
-- fetch; `media_type` is the part of a content type before its parameters, in small letters.
pub record Net : Type 0 where
  pub world : World
  pub host_of : String → String
  pub late : ℕ → Bool
  pub respond : ℕ → Target → Option PageAnswer
  pub max_bytes : ℕ
  pub document_bytes : ℕ
  pub max_redirects : ℕ
  pub blocked_domains : List String
  pub accepted_statuses : List ℕ
  pub allowed_content_types : List String
  pub media_type : String → String

abbrev pub chunk_before : String → Checked String → Checked String
chunk_before chunk (error e) = error e
chunk_before chunk (ok body) = ok (append_text chunk body)

-- The loop that reads the body.
unfoldable pub read_chunks : ℕ → ℕ → List (Bool × String) → Checked String
read_chunks limit total [] = ok ""
read_chunks limit total ((late, chunk) ∷ chunks) =
    let next = total + count chunk in
    let rest = read_chunks limit next chunks in
    if late
    then error time_limit
    else if ltb limit next
    then error too_large
    else chunk_before chunk rest

abbrev pub announces_more : ℕ → Option ℕ → Bool
announces_more limit none = false
announces_more limit (some length) = ltb limit length

abbrev pub with_body : PageAnswer → Checked String → Checked (PageAnswer × String)
with_body answer (error e) = error e
with_body answer (ok body) = ok (answer, body)

abbrev pub read_answer : ℕ → Option PageAnswer → Checked (PageAnswer × String)
read_answer limit none = error request_failed
read_answer limit (some answer) =
    let body = read_chunks limit 0 answer.chunks in
    if announces_more limit answer.announced then error too_large else with_body answer body

-- `_request_once`: the connections that it opens, and what it returns.
abbrev pub request_target :
    Net → ℕ → String → Checked Target → List Connection × Checked (PageAnswer × String)
request_target net time url (error e) = ([], error e)
request_target net time url (ok target) = if net.late time then ([], error time_limit) else (
  record { url = url; target = target } ∷ [],
  read_answer net.max_bytes (net.respond time target),
)

unfoldable pub request_once : Net → ℕ → String → List Connection × Checked (PageAnswer × String)
request_once net time url = request_target net time url (validated_target net.world time url)

abbrev pub is_redirect : ℕ → Bool
is_redirect status = any (λ s. status == s) (301 ∷ 302 ∷ 303 ∷ 307 ∷ 308 ∷ [])

abbrev pub is_accepted : Net → ℕ → Bool
is_accepted net status =
    (leb 200 status && ltb status 300) || any (λ s. status == s) net.accepted_statuses

abbrev pub is_downgrade : World → String → String → Bool
is_downgrade world from to =
    str_eq (world.lower (world.urlsplit from).scheme) "https"
    && str_eq (world.lower (world.urlsplit to).scheme) "http"

abbrev pub check_destination : Net → String → Checked Target → Option WebPageError
check_destination net to (error e) = some e
check_destination net to (ok _) =
    if blocked_by_domain_policy net.world net.host_of to net.blocked_domains
    then some redirect_blocked
    else none

-- Whether a redirect may be followed: the checks on its destination.
abbrev pub check_redirect : Net → ℕ → String → String → Option WebPageError
check_redirect net time from to =
    if is_downgrade net.world from to
    then some downgrade
    else check_destination net to (validated_target net.world time to)

-- What the function returns: the final URL, the answer and its body.
pub record Resource : Type 0 where
  pub final_url : String
  pub answer : PageAnswer
  pub body : String

abbrev pub given_location : Option String → Option String
given_location none = none
given_location (some s) = if str_eq s "" then none else some s

-- How one pass of the loop ends: the function returns, or the answer names another URL.
pub data Pass : Type 0 where
  finished : Checked Resource → Pass
  redirected : String → Pass

abbrev pub take_location : Option String → Pass
take_location none = Pass.finished (error no_location)
take_location (some location) = Pass.redirected location

abbrev pub header_or : String → String → Dict String → String
header_or default name headers = get_or_default default (lookup name headers)

abbrev pub is_identity : Net → PageAnswer → Bool
is_identity net answer =
    any (str_eq (net.world.lower (header_or "identity" "content-encoding" answer.headers)))
      ("" ∷ "identity" ∷ [])

abbrev pub is_allowed_type : Net → PageAnswer → Bool
is_allowed_type net answer =
    any (str_eq (net.media_type (header_or "text/html" "content-type" answer.headers)))
      net.allowed_content_types

-- The checks of the encoding and the content type; the charset is read where the body is decoded.
abbrev pub take_resource : Net → String → PageAnswer → String → Pass
take_resource net url answer body =
    if is_identity net answer
    then (if is_allowed_type net answer
        then Pass.finished (ok (record { final_url = url; answer = answer; body = body }))
        else Pass.finished (error bad_type))
    else Pass.finished (error bad_encoding)

abbrev pub take_page : Net → String → Checked (PageAnswer × String) → Pass
take_page net url (error e) = Pass.finished (error e)
take_page net url (ok (answer, body)) =
    if is_redirect answer.status
    then take_location (given_location (lookup "location" answer.headers))
    else if is_accepted net answer.status
    then take_resource net url answer body
    else Pass.finished (error bad_status)

unfoldable pub pass : Net → ℕ → String → List Connection × Pass
pass net time url =
    let (opened, answer) = request_once net (suc time) url in
    if net.late time
    then ([], Pass.finished (error time_limit))
    else if blocked_by_domain_policy net.world net.host_of url net.blocked_domains
    then ([], Pass.finished (error blocked))
    else (opened, take_page net url answer)

abbrev pub more :
    List Connection → List Connection × Checked Resource → List Connection × Checked Resource
more opened (later, result) = (opened ++ later, result)

abbrev pub redirect_to :
    Option WebPageError → List Connection × Checked Resource → List Connection × Checked Resource
redirect_to (some e) next = ([], error e)
redirect_to none next = next

abbrev pub end_pass : Pass → Checked Resource
end_pass (Pass.finished result) = result
end_pass (Pass.redirected location) = error too_many_redirects

-- A redirect is followed by the rest of the loop.
abbrev pub follow_pass :
    (String → List Connection × Checked Resource)
    → Net
    → ℕ
    → String
    → Pass
    → List Connection × Checked Resource
follow_pass next net time url (Pass.finished result) = ([], result)
follow_pass next net time url (Pass.redirected location) =
    let to = net.world.urljoin url location in
    redirect_to (check_redirect net (time + 2) url to) (next to)

-- The loop of `fetch_public_resource`, by the number of redirects that are left.
unfoldable pub fetch_from : ℕ → Net → ℕ → String → List Connection × Checked Resource
fetch_from zero net time url = let (opened, end) = pass net time url in (opened, end_pass end)
fetch_from (suc left) net time url =
    let (opened, end) = pass net time url in
    more opened (follow_pass (λ to. fetch_from left net (time + 3) to) net time url end)

-- `fetch_public_resource`, where `max_bytes` is the caller's limit or that of the settings, which must not
-- be above the settings' limit for documents.
unfoldable pub fetch_public_resource : Net → String → List Connection × Checked Resource
fetch_public_resource net url =
    let fetched = fetch_from net.max_redirects net 0 (net.world.strip url) in
    if ltb net.max_bytes 1 || ltb net.document_bytes net.max_bytes
    then ([], error bad_limit)
    else fetched
