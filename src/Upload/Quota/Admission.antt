-- ===== src/Upload/Quota/Admission.antt =====
-- Which uploads the quota check admits (server/src/handlers/upload.rs).
use nexa_drive.Prelude.{
  ℕ, ◌+◌, ◌-◌, ◌≤◌, ◌<◌, ◌≡◌, ◌≢◌, refl, ap, sym, subst, ◌∙◌, ◌↔◌, ◌⊎◌, inl, inr, Bool, true, false,
  not, ◌&&◌, Option, none, some, List, [], ◌∷◌, arith, ltb, ◌==◌, ==_iff, both_of_and,
  false_of_negation, Bool-cases, if◌then◌else◌,
}
use nexa_drive.Text.Decimal.{saturating_add, u64_max}
use nexa_drive.Error.{ok, AppError, conflict, numbered}
use nexa_drive.Error.Exec.{check, checked, ◌>>=◌}
use nexa_drive.Upload.Jobs.{
  Job, Status, receiving, staging, completed, failed, is_live, is_excluded, outstanding,
  reserved_upload_bytes,
}
use nexa_drive.Upload.World.{World, User, nonneg, QuotaCacheEntry, Moment, Call}
use nexa_drive.Upload.Quota.{
  quota_cache_ttl, limit_of, quota_limit, uncached_used_bytes, cached_used_bytes, used_bytes,
  within_quota, ensure_limit, ensure_quota,
}

-- What the row of an upload keeps back for it: its total, or what is there where no total is known, less what has
-- arrived.
abbrev pub still_to_come : Job → ℕ
still_to_come j = (elim j.total_bytes [ none ↦ j.size_bytes | some t ↦ t ]) - j.bytes_received

-- Another upload that is under way.
pub record IsOther (user : ℕ) (exclude : Option ℕ) (j : Job) : Type 0 where
  pub owner : j.user_id ≡ user
  pub under_way : (j.status ≡ receiving) ⊎ (j.status ≡ staging)
  pub not_itself : exclude ≢ some j.id

-- The bytes of the other uploads, one row after the other.
pub data Outstanding (user : ℕ) (exclude : Option ℕ) : List Job → ℕ → Type 0 where
  nothing : Outstanding user exclude [] 0
  counted :
      (j : Job) (js : List Job) (n : ℕ)
      → IsOther user exclude j
      → Outstanding user exclude js n
      → Outstanding user exclude (j ∷ js) (still_to_come j + n)
  left_out :
      (j : Job) (js : List Job) (n : ℕ)
      → ¬ IsOther user exclude j
      → Outstanding user exclude js n
      → Outstanding user exclude (j ∷ js) n

live_status : (s : Status) → is_live s ≡ true → (s ≡ receiving) ⊎ (s ≡ staging)
unfolding is_live
live_status receiving h = inl refl
live_status staging h = inr refl
live_status completed h = cc
live_status failed h = cc

status_live : (s : Status) → (s ≡ receiving) ⊎ (s ≡ staging) → is_live s ≡ true
unfolding is_live
status_live s (inl e) = ap is_live e
status_live s (inr e) = ap is_live e

some_eq : (a b : ℕ) → some a ≡ some b → a ≡ b
some_eq a b e = cc

apart : (exclude : Option ℕ) (j : Job) → is_excluded exclude j ≡ false → exclude ≢ some j.id
unfolding is_excluded
apart none j h e = cc
apart (some id) j h e = let same = some_eq id j.id e in ground arith

unexcluded : (exclude : Option ℕ) (j : Job) → exclude ≢ some j.id → is_excluded exclude j ≡ false
unfolding is_excluded
unexcluded none j h = refl
unexcluded (some id) j h = elim (Bool-cases (j.id == id)) [
  | inl e ↦ absurd (h (ap some (sym ((==_iff j.id id).0 e))))
  | inr e ↦ e
]

abbrev is_counted : ℕ → Option ℕ → Job → Bool
is_counted user exclude j = j.user_id == user && (is_live j.status && not (is_excluded exclude j))

is_counted-IsOther :
    (user : ℕ) (exclude : Option ℕ) (j : Job)
    → is_counted user exclude j ≡ true
    → IsOther user exclude j
is_counted-IsOther user exclude j h =
    let first = both_of_and (j.user_id == user) _ h in
    let second = both_of_and (is_live j.status) (not (is_excluded exclude j)) first.1 in
    record {
      owner = (==_iff j.user_id user).0 first.0;
      under_way = live_status j.status second.0;
      not_itself = apart exclude j (false_of_negation (is_excluded exclude j) second.1);
    }

IsOther-is_counted :
    (user : ℕ) (exclude : Option ℕ) (j : Job)
    → IsOther user exclude j
    → is_counted user exclude j ≡ true
IsOther-is_counted user exclude j o =
    rw
      (
        (==_iff j.user_id user).1 o.owner,
        status_live j.status o.under_way,
        unexcluded exclude j o.not_itself,
      )
      refl

-- The sum that the code takes is that of the other uploads.
reserved-Outstanding :
    (user : ℕ) (exclude : Option ℕ) (js : List Job)
    → Outstanding user exclude js (reserved_upload_bytes user exclude js)
unfolding reserved_upload_bytes outstanding
reserved-Outstanding user exclude [] = nothing
reserved-Outstanding user exclude (j ∷ js) =
    step (reserved-Outstanding user exclude js) (is_counted user exclude j) refl
  where
    bytes : Job → ℕ
    bytes x = elim x.total_bytes [
      | none ↦ x.size_bytes - x.bytes_received
      | some t ↦ t - x.bytes_received
    ]

    same_bytes :
        (size received : ℕ) (o : Option ℕ)
        → (elim o [ none ↦ size | some t ↦ t ]) - received
          ≡ (elim o [ none ↦ size - received | some t ↦ t - received ])
    same_bytes size received none = refl
    same_bytes size received (some t) = refl

    step :
        Outstanding user exclude js (reserved_upload_bytes user exclude js)
        → (b : Bool) → is_counted user exclude j ≡ b
        → Outstanding user exclude (j ∷ js) (
            (if b
              then (elim j.total_bytes [
                | none ↦ j.size_bytes - j.bytes_received
                | some t ↦ t - j.bytes_received
              ])
              else 0)
            + reserved_upload_bytes user exclude js)
    step rest true e =
        subst (λ n. Outstanding user exclude (j ∷ js) (n + reserved_upload_bytes user exclude js))
          (same_bytes j.size_bytes j.bytes_received j.total_bytes)
          (counted j js _ (is_counted-IsOther user exclude j e) rest)
    step rest false e =
        subst (Outstanding user exclude (j ∷ js)) (omega arith)
          (left_out j js _ (λ o. let yes = IsOther-is_counted user exclude j o in cc) rest)

limit_of_row :
    (row : Option User) (u : User) (limit : ℕ)
    → row ≡ some u
    → u.quota_bytes ≡ some (nonneg limit)
    → limit_of row ≡ ok (some limit)
unfolding limit_of
limit_of_row row u limit e q = rw (e, q) refl

same_answer : (b : Bool) (e : AppError) (v w : World) → (check b e v).0 ≡ (checked b e w).0
unfolding check
same_answer true e v w = refl
same_answer false e v w = refl

passed : (b : Bool) (e : AppError) (w : World) → (checked b e w).0 ≡ ok tt → b ≡ true
passed true e w h = refl
passed false e w h = cc

passes : (b : Bool) (e : AppError) (w : World) → b ≡ true → (checked b e w).0 ≡ ok tt
passes true e w h = refl
passes false e w h = cc

within :
    (limit used reserved incoming : ℕ)
    → limit < u64_max
    → within_quota limit used reserved incoming ≡ true
    → used + reserved + incoming ≤ limit
unfolding within_quota saturating_add
within limit used reserved incoming h k = ground arith

admitted :
    (limit used reserved incoming : ℕ)
    → limit < u64_max
    → used + reserved + incoming ≤ limit
    → within_quota limit used reserved incoming ≡ true
unfolding within_quota saturating_add
admitted limit used reserved incoming h k = ground arith

ran :
    (m : Moment) (user incoming limit : ℕ) (exclude : Option ℕ) (u : User) (w : World)
    → ((c : Call) → m.fails c ≡ false)
    → w.users user ≡ some u
    → u.quota_bytes ≡ some (nonneg limit)
    → cached_used_bytes m user (w.quota_cache user) ≡ uncached_used_bytes m user
    → (ensure_quota m user incoming exclude w).0
      ≡ (checked
          (within_quota limit m.tree_used (reserved_upload_bytes user exclude w.jobs) incoming)
          (conflict (numbered "Storage quota exceeded. Limit is " limit " bytes."))
          w).0
unfolding ensure_quota quota_limit ensure_limit used_bytes uncached_used_bytes ◌>>=◌
ran m user incoming limit exclude u w quiet e q c =
    rw
      (
        quiet Call.quota_query,
        limit_of_row (w.users user) u limit e q,
        c,
        quiet Call.walk_files,
        quiet Call.reserved_query,
      )
      (same_answer _ _ _ w)

no_reading :
    (m : Moment) (user : ℕ) (o : Option QuotaCacheEntry)
    → ((e : QuotaCacheEntry) → o ≡ some e → quota_cache_ttl ≤ m.instant - e.at)
    → cached_used_bytes m user o ≡ uncached_used_bytes m user
unfolding cached_used_bytes
no_reading m user none h = refl
no_reading m user (some e) h =
    let old = h e refl in
    let stale : ltb (m.instant - e.at) quota_cache_ttl ≡ false = ground arith in rw stale refl

-- Where no call fails and no reading of the usage is kept for less than 5 seconds, for an account with a limit
-- below 2^64 - 1: an upload is admitted exactly if the bytes that the walk counts, those that the other uploads
-- of the account under way have still to send, and its own are together within the limit.
pub ensure_quota_iff :
    (m : Moment) (user incoming limit : ℕ) (exclude : Option ℕ) (u : User) (w : World)
    → ((c : Call) → m.fails c ≡ false)
    → w.users user ≡ some u
    → u.quota_bytes ≡ some (nonneg limit)
    → ((e : QuotaCacheEntry) → w.quota_cache user ≡ some e → quota_cache_ttl ≤ m.instant - e.at)
    → limit < u64_max
    → (others : ℕ) × Outstanding user exclude w.jobs others
      × (((ensure_quota m user incoming exclude w).0 ≡ ok tt)
          ↔ (m.tree_used + others + incoming ≤ limit))
ensure_quota_iff m user incoming limit exclude u w quiet e q c h =
    let run =
      ran m user incoming limit exclude u w quiet e q (no_reading m user (w.quota_cache user) c) in
    let others = reserved_upload_bytes user exclude w.jobs in
    (
      others,
      reserved-Outstanding user exclude w.jobs,
      (
        (λ k. within limit m.tree_used others incoming h (passed _ _ w (sym run ∙ k))),
        (λ k. run ∙ passes _ _ w (admitted limit m.tree_used others incoming h k)),
      ),
    )
