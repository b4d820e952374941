-- ===== src/Nonces.antt =====
-- `nonce_check_and_add` of `InMemoryStore` and of `SQLiteStore`, novapanda/store.py. Times are whole
-- seconds.
pub mod Replay
use novapanda.Base.{
  ℕ, ◌+◌, String, Bool, true, false, ◌&&◌, ◌||◌, List, [], ◌∷◌, ◌++◌, ◌==◌, leb, if◌then◌else◌,
}

-- A nonce of an agent and the time at which it was seen: an item of `_nonces`, a row of `nonces`.
pub record Seen : Type 0 where
  pub agent_id : String
  pub nonce : String
  pub seen_at : ℕ

abbrev pub is_of : Seen → Seen → Bool
is_of s q = s.agent_id == q.agent_id && s.nonce == q.nonce

-- `key in self._nonces`, and the primary key of the table
unfoldable pub known : Seen → List Seen → Bool
known q [] = false
known q (s ∷ ss) = is_of s q || known q ss

-- What is not older than the window.
unfoldable pub prune : ℕ → ℕ → List Seen → List Seen
prune window now [] = []
prune window now (s ∷ ss) =
    let rest = prune window now ss in if leb now (s.seen_at + window) then s ∷ rest else rest

-- The store in memory looks before it prunes, and prunes only where it adds.
unfoldable pub check_in_memory : ℕ → Seen → List Seen → Bool × List Seen
check_in_memory window q ss =
    if known q ss then (false, ss) else (true, prune window q.seen_at ss ++ q ∷ [])

-- The database prunes first, and an insert of a key that is there fails.
unfoldable pub check_in_database : ℕ → Seen → List Seen → Bool × List Seen
check_in_database window q ss =
    let kept = prune window q.seen_at ss in
    if known q kept then (false, kept) else (true, kept ++ q ∷ [])

pub data Kind : Type 0 where
  in_memory in_database : Kind

unfoldable pub nonce_check_and_add : Kind → ℕ → Seen → List Seen → Bool × List Seen
nonce_check_and_add in_memory window q ss = check_in_memory window q ss
nonce_check_and_add in_database window q ss = check_in_database window q ss

-- The store after some calls.
pub serve : Kind → ℕ → List Seen → List Seen → List Seen
serve kind window [] ss = ss
serve kind window (q ∷ qs) ss = serve kind window qs (nonce_check_and_add kind window q ss).1
