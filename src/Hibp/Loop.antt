-- ===== src/Hibp/Loop.antt =====
-- The requests of one check: how many there are, what they reveal, and what their replies give.
use duckpass.Hibp.{
  HibpResult, Network, HttpReply, failed, responded, Event, requested, slept, with_error,
  after_reply, request_loop, check_password, parse_response, endpoint,
}
use duckpass.Hibp.Range.{
  NoColon, find_count, split_lines, verdict, parse_response_lem, parse_response_total,
}
use duckpass.Prelude.{
  ℕ, zero, suc, ◌+◌, ◌^◌, ◌≤◌, ◌<◌, ◌==◌, Bool, true, false, List, [], ◌∷◌, ◌++◌, ◌≡◌, refl, le→leb,
  le→ltb, ltb→lt, ap, ◌∙◌, Option, some, Bytes, text, length, take, drop, ltb, leb, if◌then◌else◌,
  arith, All, Bool-cases, inl, inr,
}
use duckpass.Text.CString.{c_str}
use native.Mathlib.Numerals.{towards_suc}

unfoldable pub requests : List Event → ℕ
requests [] = 0
requests (requested url ∷ events) = suc (requests events)
requests (slept seconds ∷ events) = requests events

-- The seconds of all waits.
unfoldable pub waited : List Event → ℕ
waited [] = 0
waited (requested url ∷ events) = waited events
waited (slept seconds ∷ events) = seconds + waited events

-- A request of no other URL.
abbrev pub Requests : Bytes → Event → Type 0
Requests url (requested other) = other ≡ url
Requests url (slept seconds) = Unit {0}

-- What a round and those after it may do: four requests less those already made, each of one URL, and
-- waits of sixteen seconds less those already waited for.
abbrev WithinLimits : Bytes → ℕ → List Event → Type 0
WithinLimits url retry_count events =
    (requests events + retry_count ≤ 4)
    × (waited events + 2 ^ (retry_count + 1) ≤ 16)
    × All (Requests url) events

abbrev Gives : Option HibpResult → Type 0
Gives outcome = (r : HibpResult) × (outcome ≡ some r)

power_below : (n : ℕ) → n ≤ 3 → 2 ^ (n + 1) ≤ 16
power_below zero h = omega arith
power_below (suc zero) h = omega arith
power_below (suc (suc zero)) h = omega arith
power_below (suc (suc (suc zero))) h = omega arith
power_below (suc (suc (suc (suc n)))) h = absurd (omega arith)

power_double : (n : ℕ) → 2 ^ (n + 1 + 1) ≡ 2 ^ (n + 1) + 2 ^ (n + 1)
power_double n = simp towards_suc (omega arith)

one_request : (url : Bytes) (n : ℕ) → n ≤ 3 → WithinLimits url n (requested url ∷ [])
unfolding requests waited
one_request url n h = (omega arith, omega (arith, power_below n h), (refl, tt))

after_reply_bounded :
    (suffix url : Bytes) (n : ℕ) (again : List Event × Option HibpResult) (reply : HttpReply)
    → n ≤ 3
    → (n + 1 ≤ 3 → WithinLimits (c_str url) (n + 1) again.0 × Gives again.1)
    → WithinLimits (c_str url) n (after_reply suffix url n again reply).0
      × Gives (after_reply suffix url n again reply).1
unfolding after_reply
after_reply_bounded suffix url n again (failed reason) h later =
    (one_request (c_str url) n h, (_, refl))
after_reply_bounded suffix url n again (responded code body) h later =
    elim (Bool-cases (code == 429)) [
      | inl limited ↦ elim (Bool-cases (ltb 3 (n + 1))) [
        | inl over ↦ rw (limited, over) (one_request (c_str url) n h, (_, refl))
        | inr under ↦ let l = later (ground arith) in rw (limited, under) (waits l)
      ]
      | inr other ↦ elim (Bool-cases (code == 200)) [
        | inl found ↦
            rw (other, found) (one_request (c_str url) n h, parse_response_total suffix body)
        | inr refused ↦ rw (other, refused) (one_request (c_str url) n h, (_, refl))
      ]
    ]
  where
    waits :
        WithinLimits (c_str url) (n + 1) again.0 × Gives again.1
        → WithinLimits (c_str url) n (requested (c_str url) ∷ slept (2 ^ (n + 1)) ∷ again.0)
          × Gives again.1
    waits l = (
      (
        unfold requests in omega (arith, l.0.0),
        unfold waited in omega (arith, l.0.1, power_double n),
        (refl, (tt, l.0.2)),
      ),
      l.1,
    )

request_loop_bounded :
    (net : Network) (suffix url : Bytes) (fuel n : ℕ)
    → n ≤ 3
    → 4 ≤ fuel + n
    → WithinLimits (c_str url) n (request_loop net suffix url fuel n).0
      × Gives (request_loop net suffix url fuel n).1
unfolding request_loop
request_loop_bounded net suffix url zero n h e = absurd (omega arith)
request_loop_bounded net suffix url (suc fuel) n h e = rw (le→leb n 3 h) (
    after_reply_bounded suffix url n _ (net.perform n (c_str url)) h
      (λ more. request_loop_bounded net suffix url fuel (n + 1) more (omega arith)))

if_holds :
    (P : List Event × Option HibpResult → Type 0) (b : Bool) {x y : List Event × Option HibpResult}
    → P x
    → P y
    → P (if b then x else y)
if_holds P true p q = p
if_holds P false p q = q

if_same :
    (b : Bool) (x y z : List Event × Option HibpResult)
    → x.0 ≡ y.0
    → (if b then x else z).0 ≡ (if b then y else z).0
if_same true x y z e = e
if_same false x y z e = refl

-- A check of any hash over any network ends with a result, whatever the replies: it makes at most four
-- requests and waits for fourteen seconds at most in all, and every request is of the URL that ends with
-- the first five characters of the hash.
pub check_password_bounded :
    (net : Network) (sha1 : Bytes)
    → (requests (check_password net sha1).0 ≤ 4)
      × (waited (check_password net sha1).0 ≤ 14)
      × All (Requests (c_str (endpoint ++ take 5 sha1))) (check_password net sha1).0
      × ((r : HibpResult) × ((check_password net sha1).1 ≡ some r))
unfolding check_password requests waited
check_password_bounded net sha1 =
    if_holds Limited (ltb (length sha1) 5) (omega arith, omega arith, tt, (_, refl))
      (if_holds Limited net.initialized started (omega arith, omega arith, tt, (_, refl)))
  where
    Limited : List Event × Option HibpResult → Type 0
    Limited x =
        (requests x.0 ≤ 4)
        × (waited x.0 ≤ 14)
        × All (Requests (c_str (endpoint ++ take 5 sha1))) x.0
        × ((r : HibpResult) × (x.1 ≡ some r))

    started : Limited (request_loop net (drop 5 sha1) (endpoint ++ take 5 sha1) 4 0)
    started =
        let b =
          request_loop_bounded net (drop 5 sha1) (endpoint ++ take 5 sha1) 4 0 (omega arith)
            (omega arith) in
        (omega (arith, b.0.0), omega (arith, b.0.1), b.0.2, b.1)

after_reply_same :
    (s t url : Bytes) (n : ℕ) (a b : List Event × Option HibpResult) (reply : HttpReply)
    → a.0 ≡ b.0
    → (after_reply s url n a reply).0 ≡ (after_reply t url n b reply).0
unfolding after_reply
after_reply_same s t url n a b (failed reason) e = refl
after_reply_same s t url n a b (responded code body) e = elim (Bool-cases (code == 429)) [
  | inl limited ↦ elim (Bool-cases (ltb 3 (n + 1))) [
    | inl over ↦ rw (limited, over) refl
    | inr under ↦
        rw (limited, under)
          (ap (λ (x : List Event). requested (c_str url) ∷ slept (2 ^ (n + 1)) ∷ x) e)
  ]
  | inr other ↦ elim (Bool-cases (code == 200)) [
    | inl found ↦ rw (other, found) refl
    | inr refused ↦ rw (other, refused) refl
  ]
]

request_loop_same :
    (net : Network) (s t url : Bytes) (fuel n : ℕ)
    → (request_loop net s url fuel n).0 ≡ (request_loop net t url fuel n).0
unfolding request_loop
request_loop_same net s t url zero n = refl
request_loop_same net s t url (suc fuel) n = elim (Bool-cases (leb n 3)) [
  | inl more ↦ rw more (
      after_reply_same s t url n _ _ (net.perform n (c_str url))
        (request_loop_same net s t url fuel (n + 1)))
  | inr done ↦ rw done refl
]

-- Two hashes of five characters at least that start with the same five lead to the same requests and the
-- same waits, whatever the replies: nothing else of a hash leaves the machine.
pub check_password_anonymous :
    (net : Network) (a b : Bytes)
    → 5 ≤ length a
    → 5 ≤ length b
    → take 5 a ≡ take 5 b
    → (check_password net a).0 ≡ (check_password net b).0
unfolding check_password
check_password_anonymous net a b la lb e =
    rw (le→ltb (length a) 5 la, le→ltb (length b) 5 lb, e)
      (if_same net.initialized _ _ _
        (request_loop_same net (drop 5 a) (drop 5 b) (endpoint ++ take 5 b) 4 0))

-- Attempt `k` is the first that is not told to wait, and is answered with a response.
abbrev pub Answers : Network → Bytes → ℕ → Bytes → Type 0
Answers net url k response =
    ((i : ℕ) → i < k → (refusal : Bytes) × (net.perform i url ≡ responded 429 refusal))
    × (net.perform k url ≡ responded 200 response)

after_reply-again :
    (suffix url : Bytes) (n : ℕ) (again : List Event × Option HibpResult) (refusal : Bytes)
    → n < 3
    → (after_reply suffix url n again (responded 429 refusal)).1 ≡ again.1
unfolding after_reply
after_reply-again suffix url n again refusal h = rw (le→ltb 3 (n + 1) (omega arith)) refl

after_reply-last :
    (suffix url : Bytes) (n : ℕ) (again : List Event × Option HibpResult) (response : Bytes)
    → (after_reply suffix url n again (responded 200 response)).1 ≡ parse_response suffix response
unfolding after_reply
after_reply-last suffix url n again response = refl

request_loop-Answers :
    (net : Network) (suffix url : Bytes) (fuel n k : ℕ) (response : Bytes)
    → n ≤ k
    → k ≤ 3
    → k < fuel + n
    → Answers net (c_str url) k response
    → (request_loop net suffix url fuel n).1 ≡ parse_response suffix response
unfolding request_loop
request_loop-Answers net suffix url zero n k response nk k3 f a = absurd (omega arith)
request_loop-Answers net suffix url (suc fuel) n k response nk k3 f a =
    rw (le→leb n 3 (omega arith)) (elim (Bool-cases (ltb n k)) [
      | inl earlier ↦
          let refused = a.0 n (ltb→lt n k earlier) in
          let below = ltb→lt n k earlier in
          rw refused.1 (
            after_reply-again suffix url n _ refused.0 (omega arith)
            ∙ request_loop-Answers net suffix url fuel (n + 1) k response (omega arith) k3
                (omega arith) a)
      | inr last ↦
          let same : n ≡ k = ground arith in
          rw (ap (λ (i : ℕ). net.perform i (c_str url)) same ∙ a.1)
            (after_reply-last suffix url n _ response)
    ])

-- A check that is told to wait three times at most, and then gets a response, searches that response, as
-- if it had come at once.
pub check_password-Answers :
    (net : Network) (sha1 : Bytes) (k : ℕ) (response : Bytes)
    → net.initialized ≡ true
    → 5 ≤ length sha1
    → All NoColon (drop 5 sha1)
    → k ≤ 3
    → Answers net (c_str (endpoint ++ take 5 sha1)) k response
    → (check_password net sha1).1 ≡ some (verdict (find_count (drop 5 sha1) (split_lines response)))
unfolding check_password
check_password-Answers net sha1 k response i l s k3 a = rw (le→ltb (length sha1) 5 l) (
    ap
      (λ (b : Bool).
        (if b
          then request_loop net (drop 5 sha1) (endpoint ++ take 5 sha1) 4 0
          else ([], some (with_error (text "Failed to initialize CURL.")))).1)
      i
    ∙ (request_loop-Answers net (drop 5 sha1) (endpoint ++ take 5 sha1) 4 0 k response (omega arith)
          k3 (omega arith) a
        ∙ parse_response_lem (drop 5 sha1) response s))
