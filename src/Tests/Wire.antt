-- ===== src/Tests/Wire.antt =====
-- Frames of src/protocol.rs, and the theorems about them at these inputs.
use volcano_db.Base.{◌≡◌, refl, [], ◌∷◌, ◌++◌, take, arith}
use volcano_db.Protocol.Frames.{
  got, unexpected_eof, write_frame, read_frame, read_frame-write_frame, read_frame_of_torn,
}
use volcano_db.Tests.Evaluate.{everything}

-- A character of three bytes.
frame_of_text : write_frame "好!" ≡ 0 ∷ 0 ∷ 0 ∷ 4 ∷ 229 ∷ 165 ∷ 189 ∷ 33 ∷ []
unfolding everything
frame_of_text = refl

read_frame-write_frame_example : read_frame (write_frame "好!" ++ (0 ∷ [])) ≡ got "好!" (0 ∷ [])
unfolding everything
read_frame-write_frame_example = read_frame-write_frame "好!" (0 ∷ []) (omega arith)

read_frame_of_torn_example : read_frame (take 6 (write_frame "好!")) ≡ unexpected_eof
unfolding everything
read_frame_of_torn_example = read_frame_of_torn "好!" 6 (omega arith) (omega arith)
