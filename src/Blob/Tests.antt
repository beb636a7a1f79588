-- ===== src/Blob/Tests.antt =====
-- Runs of src/api/blob.cpp.
use brokit.Prelude.{◌≡◌, refl, ◌++◌, none, some, Bytes, codes, pos, negsuc, inl, inr, [], arith}
use brokit.Blob.{slice, clamped, new_reader, start_read, Reader, reads, Reach, start, then_step}
use brokit.Blob.Slices.{slice-between}
use brokit.Blob.Reading.{of_generation, awaited, of_generation-Reach}

-- slice(-2) of "abcde" and what stands before it
slice_runs : slice (some (negsuc 1)) none (codes "abcde") ≡ codes "de"
unfolding slice clamped
slice_runs = refl

slice-between_example :
    slice (some (negsuc 3)) (some (pos 9)) (codes "a" ++ (codes "bcde" ++ [])) ≡ codes "bcde"
slice-between_example =
    slice-between (codes "a") (codes "bcde") [] (some (negsuc 3)) (some (pos 9)) (inl refl)
      (inr (omega arith, refl))

abbrev as_is : Bytes → Bytes
as_is bytes = bytes

-- Two reads, the first one's task still posted.
abbrev twice : Reader
twice = start_read (some (codes "b")) (start_read (some (codes "a")) new_reader)

twice_reached : Reach as_is twice
twice_reached = then_step (then_step start (reads (some (codes "a")))) (reads (some (codes "b")))

of_generation-Reach_example :
    of_generation twice.data_of.generation twice.posted ≡ awaited twice.data_of.ready_state
of_generation-Reach_example = of_generation-Reach twice_reached
