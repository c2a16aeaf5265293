-- ===== src/Namespace/Race.antt =====
-- Two servers that append to one namespace at the same time: `append_wal` of src/namespace.rs, whose
-- commit lock (src/commit_lock.rs) is held within one process only.
use openpuffer.Base.{ℕ, ◌≡◌, refl, some, arith, inl, inr}
use openpuffer.Base.Logic.{ok, err, Option-cases}
use openpuffer.Error.{Result, message}
use openpuffer.Wal.Entry.{Bytes}
use openpuffer.Wal.Codec.{Codec}
use openpuffer.Wal.Format.{encode}
use openpuffer.Meta.Types.{NamespaceMeta, SchemaOps}
use openpuffer.Namespace.Store.{
  Store, fetch_meta, put_wal, delete_wal, put_meta, cas_meta, read_wal_segment,
}
use openpuffer.Namespace.Append.{
  Append, read_attempt, begin_attempt, commit_attempt, finish_attempt, append_wal,
}
use openpuffer.Namespace.Load.{read_wal_entry}
use openpuffer.Namespace.Commit.{next_meta, Committed, append_wal_undisturbed, append_wal-Committed}

module _ {S V : Type 0} (c : Codec V) (ops : SchemaOps S) where
  -- The other server's put of the metadata makes ours a conflict.
  finish_attempt-conflict :
      (s x : Store S V) (a : Append S) (n n' : NamespaceMeta S)
      (again : Store S V → Result ℕ × Store S V)
      → x ≡ put_meta s n'
      → next_meta c ops a (read_attempt c ops s) ≡ ok n
      → finish_attempt c ops x a (read_attempt c ops s) (some again)
        ≡ again (delete_wal x (read_attempt c ops s).seq)
  unfolding finish_attempt commit_attempt cas_meta read_attempt fetch_meta put_meta
  finish_attempt-conflict s x a n n' again hx hn = elim (Option-cases s.meta) [
    | inl e ↦ ground arith
    | inr (m, e) ↦ ground arith
  ]

  read_attempt-put_wal :
      (s : Store S V) (seq : ℕ) (body : Bytes)
      → read_attempt c ops (put_wal s seq body) ≡ read_attempt c ops s
  unfolding read_attempt fetch_meta put_wal
  read_attempt-put_wal s seq body = refl

  delete_wal-read :
      (x : Store S V) (seq : ℕ)
      → read_wal_entry c (delete_wal x seq) seq ≡ err (message "object not found")
  unfolding read_wal_entry read_wal_segment delete_wal
  delete_wal-read x seq = ground arith

  -- One server has put its segment and has not yet put its metadata. Another server now appends its own
  -- entry, is not disturbed, and is told that the sequence number is committed. Then the first server
  -- meets the conflict and tries again from a store in which this number is still the commit point, but
  -- whose segment is gone: reading the acknowledged entry fails.
  pub append_wal_loses_segment :
      (s : Store S V) (ours theirs : Append S) (our_body their_body : Bytes)
      (n n' : NamespaceMeta S) (again : Store S V → Result ℕ × Store S V)
      → encode c ours.entry ≡ ok our_body
      → encode c theirs.entry ≡ ok their_body
      → next_meta c ops ours (read_attempt c ops s) ≡ ok n
      → next_meta c ops theirs (read_attempt c ops s) ≡ ok n'
      → (s1 s2 s3 : Store S V) × (begin_attempt c ops s ours ≡ (ok (read_attempt c ops s), s1))
        × (append_wal c ops (λ _ x. x) s1 theirs ≡ (ok (read_attempt c ops s).seq, s2))
        × (finish_attempt c ops s2 ours (read_attempt c ops s) (some again) ≡ again s3)
        × Committed c ops s3 (read_attempt c ops s).seq
        × (read_wal_entry c s3 (read_attempt c ops s).seq ≡ err (message "object not found"))
  unfolding begin_attempt put_wal put_meta delete_wal
  append_wal_loses_segment s ours theirs our_body their_body n n' again ho ht hn hn' =
      let t = read_attempt c ops s in
      let s1 = put_wal s t.seq our_body in
      let s2 = put_meta (put_wal s1 t.seq their_body) n' in
      let same : read_attempt c ops s1 ≡ t = read_attempt-put_wal s t.seq our_body in
      let acked : append_wal c ops (λ _ x. x) s1 theirs ≡ (ok t.seq, s2) =
        ground
          (arith, same, append_wal_undisturbed c ops s1 theirs their_body n' ht (rw same hn')) in
      (
        s1,
        s2,
        delete_wal s2 t.seq,
        ground arith,
        acked,
        finish_attempt-conflict (put_wal s1 t.seq their_body) s2 ours n n' again refl
            (ground (arith, same)),
        append_wal-Committed c ops (λ _ x. x) s1 s2 theirs t.seq acked,
        delete_wal-read s2 t.seq,
      )
