-- ===== src/Web/Route/Pids.antt =====
-- The pages of a process: their addresses lead to their handlers.
use bdtrace.Common.{
  ℕ, zero, suc, ◌+◌, ◌^◌, ◌≤◌, ◌<◌, ◌≡◌, refl, ap, ◌∙◌, sym, true, false, [], ◌∷◌, ◌++◌, Text,
  text_eq, ltb, arith, length, length-append,
}
use mathlib.Core.List.{append-nil}
use bdtrace.Common.Int.{pos}
use bdtrace.Common.Literals.{bytes}
use bdtrace.Web.Json.{decimal}
use bdtrace.Web.Query.{
  starts_with, drop_bytes, find_after, found, occurs, atoi, extract_pid_from_uri,
}
use bdtrace.Web.Query.Pids.{until-decimal, atoi-decimal, decimal-leads, no_slash, no_digit}
use bdtrace.Web.Route.{
  PidPage, filedirs, files, children, io, pid_page, page_suffix, processes_prefix, asks_for,
  with_pid, pid_route, route_rest, route,
}

-- The address of a page.
unfoldable pub page_uri : PidPage → ℕ → Text
page_uri p n = processes_prefix ++ (decimal n ++ page_suffix p)

find_after-skip :
    (l : ℕ) (k w t : Text)
    → no_slash w ≡ true
    → find_after (b'/' ∷ l ∷ k) (w ++ t) ≡ find_after (b'/' ∷ l ∷ k) t
unfolding find_after no_slash starts_with
find_after-skip l k [] t h = refl
find_after-skip l k (c ∷ w) t h = ground (arith, find_after-skip l k w t)

-- Behind a slash a digit stands, so that the page's name is not found there.
find_after-number :
    (l : ℕ) (k t : Text) (n : ℕ)
    → 57 < l
    → find_after (b'/' ∷ l ∷ k) (b'/' ∷ (decimal n ++ t)) ≡ find_after (b'/' ∷ l ∷ k) t
unfolding find_after starts_with
find_after-number l k t n h =
    let (c, r, e, lo, hi, clean) = decimal-leads n in
    rw (starts e hi) (find_after-skip l k (decimal n) t clean)
  where
    starts :
        {c : ℕ} {r : Text}
        → decimal n ≡ c ∷ r
        → c ≤ 57
        → starts_with (decimal n ++ t) (l ∷ k) ≡ false
    starts e hi = rw e (ground arith)

find-page_uri :
    (p q : PidPage) (n : ℕ)
    → find_after (page_suffix q) (page_uri p n) ≡ find_after (page_suffix q) (page_suffix p)
unfolding page_uri find_after starts_with
find-page_uri p filedirs n =
    find_after-number b'f' (bytes "iledirs") (page_suffix p) n (omega arith)
find-page_uri p files n = find_after-number b'f' (bytes "iles") (page_suffix p) n (omega arith)
find-page_uri p children n =
    find_after-number b'c' (bytes "hildren") (page_suffix p) n (omega arith)
find-page_uri p io n = find_after-number b'i' (bytes "o") (page_suffix p) n (omega arith)

-- A page is asked for by an address exactly if its name is in the page's part of it.
asks_for-page_uri :
    (p q : PidPage) (n : ℕ) → asks_for q (page_uri p n) ≡ occurs (page_suffix q) (page_suffix p)
unfolding asks_for page_uri occurs starts_with
asks_for-page_uri p q n = ap found (find-page_uri p q n)

extract-page_uri :
    (p : PidPage) (n : ℕ)
    → n < 2 ^ 31
    → extract_pid_from_uri (page_uri p n) processes_prefix (page_suffix p) ≡ pos n
unfolding extract_pid_from_uri page_uri drop_bytes starts_with no_digit
extract-page_uri p n small = extracted p
  where
    long_enough : (s : Text) → ltb (length (decimal n ++ s)) (length (decimal n) + length s) ≡ false
    long_enough s = ground (arith, length-append (decimal n) s)

    number : atoi (decimal n) ≡ pos n
    number = ap atoi (sym (append-nil (decimal n))) ∙ atoi-decimal n [] small refl

    extracted :
        (q : PidPage) → extract_pid_from_uri (page_uri q n) processes_prefix (page_suffix q) ≡ pos n
    extracted filedirs =
        rw (until-decimal n (bytes "filedirs"), long_enough (bytes "/filedirs")) number
    extracted files = rw (until-decimal n (bytes "files"), long_enough (bytes "/files")) number
    extracted children =
        rw (until-decimal n (bytes "children"), long_enough (bytes "/children")) number
    extracted io = rw (until-decimal n (bytes "io"), long_enough (bytes "/io")) number

-- The handler of a page gets the pid that stands in its address, a positive `int`.
pub route-page_uri :
    (p : PidPage) (n : ℕ) (query : Text)
    → 0 < n
    → n < 2 ^ 31
    → route (page_uri p n) query ≡ pid_page p n query
unfolding route route_rest pid_route with_pid occurs find_after starts_with page_uri text_eq
    drop_bytes
route-page_uri p zero query h small = absurd (omega arith)
route-page_uri filedirs (suc n) query h small =
    rw (asks_for-page_uri filedirs filedirs (suc n), extract-page_uri filedirs (suc n) small) refl
route-page_uri files (suc n) query h small =
    let asks = asks_for-page_uri files in
    rw (asks filedirs (suc n), asks files (suc n), extract-page_uri files (suc n) small) refl
route-page_uri children (suc n) query h small =
    let asks = asks_for-page_uri children in
    rw
      (
        asks filedirs (suc n),
        asks files (suc n),
        asks children (suc n),
        extract-page_uri children (suc n) small,
      )
      refl
route-page_uri io (suc n) query h small =
    let asks = asks_for-page_uri io in
    rw
      (
        asks filedirs (suc n),
        asks files (suc n),
        asks children (suc n),
        asks io (suc n),
        extract-page_uri io (suc n) small,
      )
      refl
