-- ===== src/Examples/Following.antt =====
-- A file with one line, followed by a stream that is killed and started again.
use seekbase.Base.{◌≡◌, refl, codes, [], ◌∷◌, true, ok}
use seekbase.Json.{object}
use seekbase.Streams.Reader.{
  ends_line, is_blank, join, not_blank, passed, read_file, read_new_lines, splitlines,
}
use seekbase.Streams.Run.{
  Stream, fresh, grew, polled, killed, grow, poll, land, insert_all, land_batch, commit,
}
use seekbase.Streams.Landed.{AllCovered, Follows-AllCovered}
use seekbase.Streams.Table.{Streams, no_streams, add_handle, end_task, Closing}
use seekbase.Base.{same}
use seekbase.Base.Breaks.{lines, break_at}
use seekbase.Base.Strip.{strip_bytes}
use seekbase.Store.Jsonl.{jsonl_to_rows, read_lines, read_line, row_of_line}

abbrev started : Stream
started = record { files = λ path. []; offsets = λ path. 0; landed = [] }

abbrev written : Stream
written = grow (codes "log") (codes "{}\n") started

abbrev read_once : Stream
read_once = commit (codes "{}\n" ∷ []) ((codes "log", 3) ∷ []) written

read_once_runs :
    poll 10 (land (λ b. ok b) (λ t. object []) (λ rows. ok tt)) ((codes "log", true) ∷ []) written
    ≡ ok read_once
unfolding poll land_batch land insert_all read_new_lines read_file passed splitlines ends_line
    is_blank join not_blank same commit jsonl_to_rows read_lines read_line row_of_line lines
    strip_bytes break_at
read_once_runs = refl

Follows-AllCovered_example :
    AllCovered (record read_once { landed = (codes "{}\n" ∷ codes "{}\n" ∷ []) })
unfolding commit
Follows-AllCovered_example =
    Follows-AllCovered 10 (record read_once { landed = (codes "{}\n" ∷ codes "{}\n" ∷ []) })
      (killed read_once (codes "{}\n" ∷ []) (
        polled written read_once (λ b. ok b) (λ t. object []) (λ rows. ok tt)
          ((codes "log", true) ∷ [])
          (grew started (codes "log") (codes "{}\n") (fresh (λ path. []))) read_once_runs))

abbrev one_stream : Streams
one_stream = add_handle (codes "logs") no_streams

-- `close` stops the stream, while another is started.
abbrev other_stream : Streams
other_stream = add_handle (codes "mail") one_stream

abbrev left_stream : Streams
left_stream = end_task 0 other_stream
