-- ===== src/Client/Download/Panic/Verdicts.antt =====
-- crates/fcb_core/src/server_api.rs: which verdict on a reply can lead a download to its panic.
use fl_codepush_box.Prelude.{
  ℕ, suc, ◌≡◌, refl, Bool, true, false, ◌&&◌, Option, none, some, List, arith, Str, Bytes, ◌==◌,
  ltb, leb, Result, ok, err, [], ◌∷◌, ◌++◌,
}
use fl_codepush_box.Client.{
  Read, chunk, broken, Reply, failed, answered, ClientError, panicked, can_retry,
  should_retry_status,
}
use fl_codepush_box.Client.Calls.{keep_last}
use fl_codepush_box.Client.Download.{
  Downloaded, with_append, DownloadVerdict, done, again, restart, read_body, judge_download,
  conclude_download,
}

abbrev pub is_panic : ClientError → Bool
is_panic panicked = true
is_panic _ = false

abbrev pub panics : Downloaded → Bool
panics (ok r) = false
panics (err e) = is_panic e

abbrev pub body_panics : Result ClientError Bytes → Bool
body_panics (ok r) = false
body_panics (err e) = is_panic e

pub read_body-panics :
    (polls : ℕ → Bool) (poll : ℕ) (out : Bytes) (reads : List Read)
    → body_panics (read_body polls poll out reads) ≡ false
unfolding read_body
read_body-panics polls poll out [] = ground arith
read_body-panics polls poll out (broken ∷ reads) = ground arith
read_body-panics polls poll out (chunk [] ∷ reads) = ground arith
read_body-panics polls poll out (chunk (b ∷ bytes) ∷ reads) =
    ground (arith, read_body-panics polls (suc poll) (out ++ (b ∷ bytes)) reads)

pub with_append-panics :
    (append : Bool) (r : Result ClientError Bytes)
    → body_panics r ≡ false
    → panics (with_append append r) ≡ false
with_append-panics append (ok b) h = refl
with_append-panics append (err e) h = h

-- A status of 500 or more, and the status 416.
abbrev pub is_server_error : Reply → Bool
is_server_error (answered status body) = leb 500 status
is_server_error (failed e) = false

abbrev pub is_out_of_range : Reply → Bool
is_out_of_range (answered status body) = status == 416
is_out_of_range (failed e) = false

abbrev pub verdict_panics : DownloadVerdict → Bool
verdict_panics (done r) = panics r
verdict_panics _ = false

abbrev pub is_again : DownloadVerdict → Bool
is_again (again e) = true
is_again _ = false

abbrev pub is_again_fresh : DownloadVerdict → Bool
is_again_fresh (again none) = true
is_again_fresh _ = false

abbrev pub is_restart : DownloadVerdict → Bool
is_restart restart = true
is_restart _ = false

pub and-false : (b : Bool) → (b && false) ≡ false
and-false b = ground arith

abbrev pub Rounds : Type 0
Rounds = ℕ → Option Str → Downloaded

module _ (read_text : List Read → Str) (polls : ℕ → Bool) where
  -- No reply is a panic by itself.
  pub judge-panics :
      (poll attempt offset : ℕ) (r : Reply)
      → verdict_panics (judge_download read_text polls poll attempt offset r) ≡ false
  unfolding judge_download should_retry_status
  judge-panics poll attempt offset (failed e) = ground arith
  judge-panics poll attempt offset (answered status body) =
      let quiet = read_body-panics polls poll [] body in
      ground (
        arith,
        with_append-panics true (read_body polls poll [] body) quiet,
        with_append-panics false (read_body polls poll [] body) quiet,
      )

  -- Once an error of the transport is kept, no round panics.
  pub conclude-panics_kept :
      (next : Rounds) (offset : ℕ) (e : Str) (v : DownloadVerdict)
      → verdict_panics v ≡ false
      → ((o : ℕ) (l : Str) → panics (next o (some l)) ≡ false)
      → panics (conclude_download read_text polls next offset (some e) v) ≡ false
  unfolding conclude_download
  conclude-panics_kept next offset e (done r) h k = h
  conclude-panics_kept next offset e (again none) h k = k offset e
  conclude-panics_kept next offset e (again (some l)) h k = k offset l
  conclude-panics_kept next offset e restart h k = k 0 e

  -- At offset 0 no round restarts.
  pub conclude-panics_whole :
      (next : Rounds) (last : Option Str) (v : DownloadVerdict)
      → verdict_panics v ≡ false
      → ((l : Option Str) → panics (next 0 l) ≡ false)
      → panics (conclude_download read_text polls next 0 last v) ≡ false
  unfolding conclude_download
  conclude-panics_whole next last (done r) h k = h
  conclude-panics_whole next last (again e) h k = k (keep_last last e)
  conclude-panics_whole next last restart h k = k last

  -- A round that keeps no error goes on with the next one; else it panics no more.
  pub conclude-panics_fresh :
      (next : Rounds) (offset : ℕ) (v : DownloadVerdict)
      → verdict_panics v ≡ false
      → ((o : ℕ) (l : Str) → panics (next o (some l)) ≡ false)
      → panics (next 0 none) ≡ false
      → panics (conclude_download read_text polls next offset none v)
        ≡ (is_again_fresh v && panics (next offset none))
  unfolding conclude_download
  conclude-panics_fresh next offset (done r) h k z = h
  conclude-panics_fresh next offset (again none) h k z = refl
  conclude-panics_fresh next offset (again (some l)) h k z = k offset l
  conclude-panics_fresh next offset restart h k z = z

  -- The last round panics where it restarts.
  pub last-panics_fresh :
      (next : Rounds) (offset : ℕ) (v : DownloadVerdict)
      → verdict_panics v ≡ false
      → is_again v ≡ false
      → panics (next 0 none) ≡ true
      → panics (conclude_download read_text polls next offset none v) ≡ is_restart v
  unfolding conclude_download
  last-panics_fresh next offset (done r) h a z = h
  last-panics_fresh next offset (again e) h a z = absurd (ground arith)
  last-panics_fresh next offset restart h a z = z

  pub last-panics :
      (next : Rounds) (offset : ℕ) (last : Option Str) (v : DownloadVerdict)
      → verdict_panics v ≡ false
      → is_again v ≡ false
      → is_restart v ≡ false
      → panics (conclude_download read_text polls next offset last v) ≡ false
  unfolding conclude_download
  last-panics next offset last (done r) h a z = h
  last-panics next offset last (again e) h a z = absurd (ground arith)
  last-panics next offset last restart h a z = absurd (ground arith)

  pub judge-again :
      (poll attempt offset : ℕ) (r : Reply)
      → can_retry attempt ≡ false
      → is_again (judge_download read_text polls poll attempt offset r) ≡ false
  unfolding judge_download
  judge-again poll attempt offset (failed e) h = ground arith
  judge-again poll attempt offset (answered status body) h = ground arith

  pub judge-restart :
      (poll attempt offset : ℕ) (r : Reply)
      → is_restart (judge_download read_text polls poll attempt offset r)
        ≡ (is_out_of_range r && ltb 0 offset)
  unfolding judge_download
  judge-restart poll attempt offset (failed e) = ground arith
  judge-restart poll attempt offset (answered status body) = ground arith

  pub judge-fresh :
      (poll attempt offset : ℕ) (r : Reply)
      → can_retry attempt ≡ true
      → is_again_fresh (judge_download read_text polls poll attempt offset r) ≡ is_server_error r
  unfolding judge_download should_retry_status
  judge-fresh poll attempt offset (failed e) h = ground arith
  judge-fresh poll attempt offset (answered status body) h = ground arith
