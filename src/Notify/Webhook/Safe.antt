-- ===== src/Notify/Webhook/Safe.antt =====
-- webhook.go: which addresses the dialer connects to, and what the error of a delivery says.
use ruleraven.Common.{
  is_some, trim_space, inl, inr, ◌≡◌, refl, sym, ap, ◌⊎◌, String, ◌==◌, Bool, true, false, not,
  ◌&&◌, ◌||◌, Option, none, some, List, [], ◌∷◌, is_empty, Bool-cases, arith, if◌then◌else◌,
  equal_fold,
}
use mathlib.Core.List.{Memᴰ}
use ruleraven.Common.Int.{◌-ℤ◌, ℤ, pos, negsuc, Time, Duration, ◌≤ℤ◌, ◌<ℤ◌, ltb_ℤ, sub_time}
use ruleraven.Notify.Envelope.{NotifyError}
use ruleraven.Notify.Webhook.{
  IpAddress, Lookup, addresses, lookup_failed, unsafe_ip, Dialed, connected, bad_address,
  unexpected_host, not_resolved, no_safe_address, first_of, connect_first, dial_found, dial,
  Response, WebhookLibrary, retryable_status, is_success, is_redirect, held_to, until_date,
  after_seconds, retry_after_of, parse_retry_after, in_seconds, seconds, answer_of, sized_answer,
  small_answer, status_error,
}

-- A connection is to an address of the host that is public, unless private networks are allowed.
abbrev pub IsDialed : Bool → List IpAddress → Dialed → Type 0
IsDialed allow_private found (connected ip) =
    Memᴰ ip found × ((allow_private ≡ true) ⊎ (unsafe_ip ip ≡ false))
IsDialed allow_private found _ = Unit

abbrev pub found_of : Lookup → List IpAddress
found_of (addresses found) = found
found_of lookup_failed = []

module _ {S : Type 0} (connect : IpAddress → S → Bool × S) (trim_dot : String → String) where
  later :
      (allow_private : Bool) (ip : IpAddress) (ips : List IpAddress) (d : Dialed)
      → IsDialed allow_private ips d
      → IsDialed allow_private (ip ∷ ips) d
  later allow_private ip ips (connected a) h = (Memᴰ.tail h.0, h.1)
  later allow_private ip ips bad_address h = tt
  later allow_private ip ips unexpected_host h = tt
  later allow_private ip ips not_resolved h = tt
  later allow_private ip ips no_safe_address h = tt

  first_of-IsDialed :
      (allow_private : Bool) (ip : IpAddress) (ips : List IpAddress) (c : Bool × S)
      (rest : S → Dialed × S)
      → not allow_private && unsafe_ip ip ≡ false
      → ((s : S) → IsDialed allow_private ips (rest s).0)
      → IsDialed allow_private (ip ∷ ips) (first_of connect trim_dot ip c rest).0
  first_of-IsDialed allow_private ip ips (true, s) rest g h =
      (Memᴰ.head refl, allowed allow_private g)
    where
      allowed : (a : Bool) → not a && unsafe_ip ip ≡ false → (a ≡ true) ⊎ (unsafe_ip ip ≡ false)
      allowed true e = inl refl
      allowed false e = inr e
  first_of-IsDialed allow_private ip ips (false, s) rest g h =
      later allow_private ip ips (rest s).0 (h s)

  connect_first-IsDialed :
      (allow_private : Bool) (found : List IpAddress) (s : S)
      → IsDialed allow_private found (connect_first connect trim_dot allow_private found s).0
  unfolding connect_first
  connect_first-IsDialed allow_private [] s = tt
  connect_first-IsDialed allow_private (ip ∷ ips) s =
      elim (Bool-cases (not allow_private && unsafe_ip ip)) [
        | inl e ↦ rw e (later allow_private ip ips _ (connect_first-IsDialed allow_private ips s))
        | inr e ↦ rw e (
            first_of-IsDialed allow_private ip ips (connect ip s)
              (connect_first connect trim_dot allow_private ips) e
              (connect_first-IsDialed allow_private ips))
      ]

  dial_found-IsDialed :
      (allow_private : Bool) (found : Lookup × S)
      → IsDialed allow_private
          (found_of found.0)
          (dial_found connect trim_dot allow_private found).0
  dial_found-IsDialed allow_private (lookup_failed, s) = tt
  dial_found-IsDialed allow_private (addresses found, s) = elim (Bool-cases (is_empty found)) [
    | inl e ↦ rw e tt
    | inr e ↦ rw e (connect_first-IsDialed allow_private found s)
  ]

  -- The dialer of a webhook connects only to an address to which its own host resolves at that time,
  -- and, unless private networks are allowed, to none that is unspecified, loopback, private, link-local
  -- or multicast, whatever address it is asked for and whatever was resolved before.
  pub dial-IsDialed :
      (host : String) (allow_private : Bool) (lookup : String → S → Lookup × S)
      (address_host : Option String) (s : S)
      → IsDialed allow_private
          (found_of (lookup host s).0)
          (dial connect trim_dot host allow_private lookup address_host s).0
  unfolding dial
  dial-IsDialed host allow_private lookup none s = tt
  dial-IsDialed host allow_private lookup (some h) s =
      elim (Bool-cases (not (equal_fold (trim_dot h) (trim_dot host)))) [
        | inl e ↦ rw (e, dial) tt
        | inr e ↦ rw (e, dial) (dial_found-IsDialed allow_private (lookup host s))
      ]

IsWithin : Duration → Duration → Type 0
IsWithin maximum d = (pos 0 ≤ℤ d) × (d ≤ℤ maximum)

held-IsWithin :
    (maximum delay : Duration)
    → pos 0 <ℤ maximum
    → pos 0 ≤ℤ delay
    → IsWithin maximum (held_to maximum delay)
unfolding IsWithin
held-IsWithin maximum delay p h = ground (arith, p, h)

later_nonneg : (at now : Time) → ltb_ℤ now at ≡ true → pos 0 ≤ℤ sub_time at now
unfolding sub_time ◌-ℤ◌
later_nonneg at now e = ground (arith, e)

seconds_nonneg : (n : ℤ) → pos 0 <ℤ n → pos 0 ≤ℤ seconds n
seconds_nonneg (pos n) h = omega arith
seconds_nonneg (negsuc n) h = omega (arith, h)

date-IsWithin :
    (at : Option Time) (now : Time) (maximum : Duration)
    → pos 0 <ℤ maximum
    → IsWithin maximum (until_date at now maximum)
date-IsWithin none now maximum p = held-IsWithin maximum (pos 0) p (omega arith)
date-IsWithin (some at) now maximum p = elim (Bool-cases (ltb_ℤ now at)) [
  | inl e ↦ rw e (held-IsWithin maximum (sub_time at now) p (later_nonneg at now e))
  | inr e ↦ rw e (held-IsWithin maximum (pos 0) p (omega arith))
]

after-IsWithin :
    (n : ℤ) (maximum : Duration)
    → pos 0 <ℤ maximum
    → pos 0 <ℤ n
    → IsWithin maximum (after_seconds n maximum)
unfolding IsWithin
after-IsWithin n maximum p h =
    elim (Bool-cases (ltb_ℤ (pos 0) maximum && ltb_ℤ (in_seconds maximum) n)) [
      | inl e ↦ rw e (omega (arith, p), omega arith)
      | inr e ↦ rw e (held-IsWithin maximum (seconds n) p (seconds_nonneg n h))
    ]

parse-IsWithin :
    (parse_int : String → Option ℤ) (parse_time : String → Option Time) (raw : String) (now : Time)
    (maximum : Duration)
    → pos 0 <ℤ maximum
    → IsWithin maximum (parse_retry_after parse_int parse_time raw now maximum)
unfolding parse_retry_after IsWithin
parse-IsWithin parse_int parse_time raw now maximum p = elim (Bool-cases (raw == "")) [
  | inl e ↦ rw (e, parse_retry_after) (omega arith, omega (arith, p))
  | inr e ↦ rw (e, parse_retry_after) (retry (parse_int (trim_space raw)))
]
  where
    retry : (n : Option ℤ) → IsWithin maximum (retry_after_of n (parse_time raw) now maximum)
    retry none = date-IsWithin (parse_time raw) now maximum p
    retry (some n) = elim (Bool-cases (ltb_ℤ (pos 0) n)) [
      | inl e ↦ rw e (after-IsWithin n maximum p (ground (arith, e)))
      | inr e ↦ rw e (date-IsWithin (parse_time raw) now maximum p)
    ]

-- What the error of an answer says: nothing for a success that was read; otherwise whether the status
-- is worth a retry, and a delay within the limit. A body that cannot be read is always retried.
abbrev pub IsAnswer : Response → Duration → Option NotifyError → Type 0
IsAnswer response maximum none =
    (is_success response.status ≡ true) × (is_some response.size ≡ true)
IsAnswer response maximum (some e) =
    ((response.size ≡ none)
      ⊎ ((is_success response.status ≡ false) × (e.status_code ≡ response.status)))
    × (e.retryable ≡ (not (is_some response.size) || retryable_status response.status))
    × (pos 0 ≤ℤ e.retry_delay)
    × (e.retry_delay ≤ℤ maximum)

module _ (lib : WebhookLibrary) where
  status-IsAnswer :
      (kind : String) (response : Response) (now : Time) (maximum : Duration)
      → pos 0 <ℤ maximum
      → is_some response.size ≡ true
      → is_success response.status ≡ false
      → IsAnswer response maximum (some (status_error lib kind response now maximum))
  unfolding IsWithin
  status-IsAnswer kind response now maximum p sized h =
      let w : IsWithin maximum _ =
        parse-IsWithin lib.parse_int lib.parse_time response.retry_after now maximum p in
      (inr (h, refl), rw sized refl, w.0, w.1)

  redirect_final : (status : ℤ) → is_redirect status ≡ true → retryable_status status ≡ false
  redirect_final status h = ground (arith, h)

  small-IsAnswer :
      (response : Response) (now : Time) (maximum : Duration)
      → pos 0 <ℤ maximum
      → is_some response.size ≡ true
      → IsAnswer response maximum (small_answer lib response now maximum)
  small-IsAnswer response now maximum p sized = elim (Bool-cases (is_success response.status)) [
    | inl a ↦ rw a (a, sized)
    | inr a ↦ elim (Bool-cases (is_redirect response.status)) [
      | inl b ↦
          rw (a, b)
            (
              inr (a, refl),
              rw (sized, redirect_final response.status b) refl,
              omega arith,
              omega (arith, p),
            )
      | inr b ↦
          rw (a, b)
            (status-IsAnswer (if retryable_status response.status then "retryable" else "permanent")
              response now maximum p sized a)
    ]
  ]

  sized-IsAnswer :
      (limit : ℤ) (response : Response) (now : Time) (maximum : Duration) (size : Option ℤ)
      → pos 0 <ℤ maximum
      → response.size ≡ size
      → IsAnswer response maximum (sized_answer lib limit response now maximum size)
  sized-IsAnswer limit response now maximum none p e = (
    inl e,
    ap (λ o. not (is_some o) || retryable_status response.status) (sym e),
    omega arith,
    omega (arith, p),
  )
  sized-IsAnswer limit response now maximum (some n) p e = elim (Bool-cases (not (ltb_ℤ limit n))) [
    | inl a ↦ rw a (small-IsAnswer response now maximum p (ap is_some e))
    | inr a ↦ elim (Bool-cases (is_success response.status)) [
      | inl b ↦ rw (a, b) (b, ap is_some e)
      | inr b ↦
          rw (a, b) (status-IsAnswer "response_too_large" response now maximum p (ap is_some e) b)
    ]
  ]

  -- Where the longest delay is positive, an answer is taken as a delivery exactly where its body can be
  -- read and its status is between 200 and 299. Any other answer is an error, with that status if the
  -- body can be read, which is retried exactly on a status that the code calls retryable or where the
  -- body cannot be read, after a delay between zero and the longest.
  pub answer_of-IsAnswer :
      (limit : ℤ) (response : Response) (now : Time) (maximum : Duration)
      → pos 0 <ℤ maximum
      → IsAnswer response maximum (answer_of lib limit response now maximum)
  unfolding answer_of
  answer_of-IsAnswer limit response now maximum p =
      sized-IsAnswer limit response now maximum response.size p refl
