-- ===== src/Pagination/Limits.antt =====
-- The limits of apps/api/internal/pagination/pagination.go.
use text.Mathlib.Text.{◌==◌ as text_eq}
use flowcart.Prelude.{ℕ, String, Bool, ◌||◌, ltb, byte_length}

-- `MaxLimit`
abbrev pub max_limit : ℕ
max_limit = 100

-- an idempotency key, trimmed, that the services refuse
abbrev pub bad_key : String → Bool
bad_key key = text_eq key "" || ltb 200 (byte_length key)
