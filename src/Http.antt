-- ===== src/Http.antt =====
-- The handlers of main/jlp/net/http_api.cpp: what they read of a request, the hop of their work to the
-- UI task and back, and what they answer. The texts of the answers are constructors here.
pub mod Body
pub mod Hop
pub mod Push
pub mod Screen
pub mod Bitmap
pub mod Screenshot
pub mod Soak
use espos_p4_cockpit.Prelude.{ℕ, ◌*◌, String, Bool, List, ◌=s◌}

-- An answer: what it says, under the status that `status` gives.
pub data Reply : Type 0 where
  empty_body body_too_large body_size : Reply
  body_not_received recv_failed : Reply
  invalid_json missing_id semaphore : Reply
  not_applied still_running select_timed_out : Reply
  refused : Reply  -- with the error of the ApplyResult
  applied : String → ℕ → ℕ → Bool → Reply
  single_screen : Reply
  no_such_screen : List String → Reply
  selected : String → Reply

abbrev pub status : Reply → ℕ
status empty_body = 400
status body_too_large = 413
status body_size = 400
status body_not_received = 408
status recv_failed = 500
status invalid_json = 400
status missing_id = 400
status semaphore = 500
status not_applied = 504
status still_running = 504
status select_timed_out = 504
status refused = 400
status (applied name screens widgets warned) = 200
status single_screen = 404
status (no_such_screen known) = 404
status (selected id) = 200

abbrev pub max_body_bytes : ℕ
max_body_bytes = 64 * 1024
