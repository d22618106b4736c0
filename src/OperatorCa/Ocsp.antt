-- ===== src/OperatorCa/Ocsp.antt =====
-- internal/operatorca/ocspclient.go: the cache of OCSP answers. What the network and the validation
-- of the response give at a call (the method `lookup`) is that call's argument `answer`. A call of
-- Check is one step, and so is a background refresh, which waits in `jobs` until it runs.
pub mod Lifetime
use manager.Prelude.{
  ℕ, ◌+◌, ◌-◌, ◌*◌, ◌/◌, Bool, true, false, not, ◌&&◌, Option, none, some, List, [], ◌∷◌, ◌++◌,
  String, ltb, Comparable, ◌==◌, nat_eq, string_eq, bytes_eq, if◌then◌else◌, Result, ok, err, Map,
  insert, delete, lookup, eq_iff, list_beq_iff, ◌↔◌, ◌≡◌, arith,
}
use manager.OperatorCa.Base.{second, minute, hour, Certificate, Error}
use manager.OperatorCa.Serial.{Text}
use manager.OperatorCa.Lru.{Lru, new_lru, get, put, set_val, remove}

abbrev pub ocsp_max_ttl : ℕ
ocsp_max_ttl = hour

abbrev pub ocsp_no_next_ttl : ℕ
ocsp_no_next_ttl = 5 * minute

abbrev pub ocsp_failure_ttl : ℕ
ocsp_failure_ttl = 30 * second

abbrev pub ocsp_cache_size : ℕ
ocsp_cache_size = 4096

-- OCSPStatus
pub data Status : Type 0 where
  good revoked unknown : Status

-- OCSPResult
pub record OcspResult : Type 0 where
  pub status : Status
  pub next_update : ℕ

-- ocspKey
pub record Key : Type 0 where
  pub anchor : String
  pub serial : Text

abbrev pub key_beq : Key → Key → Bool
key_beq k j = k.anchor == j.anchor && k.serial == j.serial

pub key_beq_iff : (k j : Key) → (key_beq k j ≡ true) ↔ (k ≡ j)
key_beq_iff k j = (
  λ h. ground (arith, eq_iff k.anchor j.anchor, list_beq_iff k.serial j.serial),
  λ h. ground (arith, eq_iff k.anchor j.anchor, list_beq_iff k.serial j.serial),
)

instance abbrev pub key_eq : Comparable Key
key_eq = record { same = key_beq; same_iff = key_beq_iff }

abbrev pub Answer : Type 0
Answer = Result Error OcspResult

-- ocspEntry: `answer` is its result and err
pub record Entry : Type 0 where
  pub answer : Answer
  pub fetched_at : ℕ
  pub expires : ℕ
  pub next_refresh : ℕ
  pub refreshing : Bool

-- What the client asks its surroundings to record.
pub data Note : Type 0 where
  audit_unknown : Key → Note

pub record Client : Type 0 where
  pub cache : Lru Key Entry
  pub jobs : List Key
  pub last_err : Map String Error
  pub notes : List Note

unfoldable pub new_client : Client
new_client = record { cache = new_lru ocsp_cache_size; jobs = []; last_err = []; notes = [] }

-- now.Before(e.expires)
unfoldable pub is_live : ℕ → Entry → Bool
is_live now e = ltb now e.expires

unfoldable pub answered : Answer → Bool
answered (ok r) = true
answered (err x) = false

-- noteResult
unfoldable pub note_result : String → Answer → Client → Client
note_result anchor (ok r) c = record c { last_err = delete anchor c.last_err }
note_result anchor (err x) c = record c { last_err = insert anchor x c.last_err }

-- How long a validated response is kept, from `now`.
unfoldable pub expiry : ℕ → OcspResult → ℕ
expiry now r =
    if r.next_update == 0
    then now + ocsp_no_next_ttl
    else if ltb r.next_update (now + ocsp_max_ttl)
    then r.next_update
    else now + ocsp_max_ttl

-- The entry that `fill` caches. Where the response is past its nextUpdate already, the source's
-- next_refresh lies before `now`, and nothing reads it.
unfoldable pub entry_of : ℕ → Answer → Entry
entry_of now (ok r) = record {
  answer = ok r;
  fetched_at = now;
  expires = expiry now r;
  next_refresh = now + (expiry now r - now) / 2;
  refreshing = false;
}
entry_of now (err x) = record {
  answer = err x;
  fetched_at = now;
  expires = now + ocsp_failure_ttl;
  next_refresh = 0;
  refreshing = false;
}

unfoldable pub audit_answer : Key → Answer → List Note → List Note
audit_answer k (ok r) notes = elim r.status [ unknown ↦ audit_unknown k ∷ notes | _ ↦ notes ]
audit_answer k (err x) notes = notes

-- An entry that outlives a failed refresh.
unfoldable pub retry_later : ℕ → Entry → Entry
retry_later now e = record e { refreshing = false; next_refresh = now + ocsp_failure_ttl }

unfoldable pub store_entry : ℕ → Key → Answer → Client → Client × Entry
store_entry now k answer c =
    let e = entry_of now answer in
    (record c { cache = put k e c.cache; notes = audit_answer k answer c.notes }, e)

unfoldable pub keep_old : ℕ → Key → Answer → Entry → Client → Client × Entry
keep_old now k answer old c =
    if is_live now old
    then (record c { cache = set_val k (retry_later now old) c.cache }, retry_later now old)
    else store_entry now k answer c

-- fill, after its lookup answered `answer` at `now`
unfoldable pub fill : ℕ → Key → Answer → Option Entry → Client → Client × Entry
fill now k (ok r) old c = store_entry now k (ok r) (note_result k.anchor (ok r) c)
fill now k (err x) none c = store_entry now k (err x) (note_result k.anchor (err x) c)
fill now k (err x) (some old) c = keep_old now k (err x) old (note_result k.anchor (err x) c)

-- Whether a live entry is due for a background refresh.
unfoldable pub due : ℕ → Entry → Bool
due now e = is_live now e && answered e.answer && not e.refreshing && not (ltb now e.next_refresh)

unfoldable pub start_refresh : ℕ → Key → Entry → Client → Client
start_refresh now k e c =
    if due now e
    then (record c {
      cache = set_val k (record e { refreshing = true }) c.cache;
      jobs = c.jobs ++ k ∷ [];
    })
    else c

unfoldable pub ask : ℕ → Key → Answer → Client → Client × Answer
ask now k answer c = let (c', e) = fill now k answer none c in (c', e.answer)

-- Check, at `now`, where a fetch would answer `answer` and be over at `later`.
unfoldable pub check : ℕ → ℕ → Key → Answer → Client → Client × Answer
check now later k answer c =
    let (cache, hit) = get k c.cache in
    let c' = record c { cache = cache } in
    elim hit [
      | none ↦ ask later k answer c'
      | some e ↦
          if is_live now e then (start_refresh now k e c', e.answer) else ask later k answer c'
    ]

unfoldable pub refresh : ℕ → Key → Answer → Client → Client
refresh now k answer c =
    let (cache, old) = get k c.cache in (fill now k answer old (record c { cache = cache })).0

-- The next background job, if one waits.
unfoldable pub run_job : ℕ → Answer → Client → Client
run_job now answer c = elim c.jobs [
  | [] ↦ c
  | k ∷ ks ↦ refresh now k answer (record c { jobs = ks })
]

-- ClearAnchor
unfoldable pub clear_anchor : String → Client → Client
clear_anchor anchor c = record c {
  cache = remove (λ (k : Key). k.anchor == anchor) c.cache;
  last_err = delete anchor c.last_err;
}
