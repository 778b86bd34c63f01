-- ===== src/Redis/Blocked.antt =====
-- What a refused caller of src/services/ratelimit_redis.go is told.
use bincrypt.Prelude.{ℕ, ◌≡◌, false, Option, some, arith}
use bincrypt.RateLimit.{Decision}
use bincrypt.Redis.{SortedSet, Delivery, answered, ran}
use bincrypt.Redis.Check.{script, read_reply, check_valid, check_set}

-- With the script's answer read, a refusal never says when to try again: whatever the key holds, if the call
-- is not allowed and the script's answer arrived, the time at which the window resets is zero and so is the
-- time to wait, since the oldest score comes as a text and only an integer is taken.
pub check_set-untold :
    (to_double : ℕ → ℕ) (limit window now clock later : ℕ) (pipe removal : Delivery)
    (s s' : Option SortedSet) (d : Decision)
    → check_set to_double limit window now clock later (ran answered) pipe removal s ≡ (some d, s')
    → d.allowed ≡ false
    → (d.reset_at ≡ 0) × (d.retry_after ≡ 0)
unfolding check_set check_valid script read_reply
check_set-untold to_double limit window now clock later pipe removal s s' d e refused =
    (ground arith, ground arith)
