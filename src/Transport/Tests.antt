-- ===== src/Transport/Tests.antt =====
-- Runs of the line reader on buffers that cut lines in several places, and its theorem.
use s3_pulse.Base.{◌≡◌, refl, [], ◌∷◌, false, ok, err}
use s3_pulse.Base.Text.{Text, codes}
use s3_pulse.Transport.{
  eof, complete, too_large_line, Reader, cut, take_in, read_line, read_protocol_line,
  max_line_bytes,
}
use s3_pulse.Transport.Lines.{flatten, IsSteady, first_line, verdict, read_protocol_line_lem}
use s3_pulse.Base.{◌+◌, ◌≤◌, List, ◌++◌, map, some, none, arith}
use s3_pulse.Base.Distinct.{IsDistinct}
use s3_pulse.Transport.Serve.{
  RequestId, string, Codec, Server, Request, failure, receive, dispatch, admit, new, same_id,
  server_busy,
}
use s3_pulse.Transport.Identity.{ids}
use s3_pulse.Transport.Steps.{line}
use s3_pulse.Transport.Consistent.{busy, IsConsistent}
use s3_pulse.Transport.Reachable.{Step-IsConsistent, start, next, busy-IsReachable}
use s3_pulse.Transport.Counts.{count, answered, pending, owed}
use s3_pulse.Transport.Answers.{begin, then_step, answers-IsRun}

abbrev pieces : Reader Text
pieces = ok (codes "{\"id\"") ∷ ok (codes ":1}\nnext") ∷ []

whole_line :
    read_line 16 pieces [] false ≡ ok (complete, codes "{\"id\":1}\n", ok (codes "next") ∷ [])
unfolding read_line cut take_in
whole_line = refl

oversized : read_line 8 pieces [] false ≡ ok (too_large_line, [], ok (codes "next") ∷ [])
unfolding read_line cut take_in
oversized = refl

failing : read_line 8 (ok (codes "a") ∷ err (codes "reset") ∷ []) [] false ≡ err (codes "reset")
unfolding read_line cut take_in
failing = refl

at_eof : read_line {E = Text} 8 [] [] false ≡ ok (eof, [], [])
unfolding read_line
at_eof = refl

read_protocol_line_lem_example :
    (rest : Reader Text) × (read_protocol_line pieces
      ≡ ok (
        (verdict max_line_bytes (first_line (flatten pieces)).0).0,
        (verdict max_line_bytes (first_line (flatten pieces)).0).1,
        rest,
      ))
    × (flatten rest ≡ (first_line (flatten pieces)).1)
    × IsSteady rest
read_protocol_line_lem_example = read_protocol_line_lem pieces tt

-- A codec of texts, under which every message is a request for "echo" with itself as identifier.
abbrev request : Text → Request Text
request v = record {
  jsonrpc = codes "2.0";
  id = some (string v);
  method = codes "echo";
  params = v;
}

abbrev echo : Codec Text
echo = record {
  from_slice = ok;
  request_of = λ v. ok (request v);
  cancelled_id = λ v. none;
  detail = λ t. t;
}

abbrev one : Server Text
one = receive echo (new 1) (codes "a")

abbrev two : Server Text
two = receive echo one (codes "b")

-- The second request finds no permit.
refused : two.output ≡ failure (string (codes "b")) server_busy ∷ []
unfolding receive dispatch admit same_id
refused = refl

new-IsConsistent : IsConsistent 1 (new {V = Text} 1)
new-IsConsistent = record { bounded = omega arith; distinct = tt; same = λ j. (λ m. m, λ m. m) }

Step-IsConsistent_example : IsConsistent 1 one
Step-IsConsistent_example =
    Step-IsConsistent 1 echo (new 1) one (line (new 1) (codes "a")) new-IsConsistent

busy-IsReachable_example : (busy two.tasks ≤ 1) × IsDistinct (ids two.tasks)
busy-IsReachable_example =
    busy-IsReachable echo 1 two
      (next one two (next (new 1) one start (line (new 1) (codes "a"))) (line one (codes "b")))

owed_one : owed echo (codes "a") ≡ string (codes "a") ∷ []
unfolding owed
owed_one = refl

abbrev demands : List RequestId
demands = owed echo (codes "b") ++ (owed echo (codes "a") ++ [])

-- The request that is refused has its answer, under its own identifier.
answers-IsRun_example :
    count (string (codes "b")) (map answered two.output)
      + count (string (codes "b")) (pending two.tasks)
    ≡ count (string (codes "b")) demands
answers-IsRun_example = answers-IsRun (string (codes "b")) echo 1 demands two (
    then_step one two (owed echo (codes "a") ++ []) (line one (codes "b"))
      (then_step (new 1) one [] (line (new 1) (codes "a")) begin))
