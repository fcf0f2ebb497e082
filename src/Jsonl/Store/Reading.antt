-- ===== src/Jsonl/Store/Reading.antt =====
-- store.go: the operations that only read.
use buat_postingan.Base.{ℕ, String, arith}
use buat_postingan.Jsonl.Disk.{Os, World, SameFiles}
use buat_postingan.Jsonl.Store.{resolve_conversation, seq_head, get_thread}

module _ (os : Os) (tid : String) (w : World) where
  pub resolve_conversation-SameFiles : SameFiles w (resolve_conversation os tid w).1
  unfolding resolve_conversation
  resolve_conversation-SameFiles = ground arith

  pub seq_head-SameFiles : SameFiles w (seq_head os tid w).1
  unfolding seq_head
  seq_head-SameFiles = ground arith

  pub get_thread-SameFiles : (n : ℕ) → SameFiles w (get_thread os tid n w).1
  unfolding get_thread resolve_conversation seq_head
  get_thread-SameFiles n = ground arith
