-- ===== src/Tests/Capture.antt =====
-- The capture and the log view.
use meme.Base.{◌≡◌, List, [], ◌∷◌, arith, codes, concat, Text}
use meme.Service.Capture.{new_capped_buffer, write_all, render, log_text}
use meme.Service.Capture.Render.{render-write_all}

abbrev pieces : List Text
pieces = codes "abcdef" ∷ codes "ghi" ∷ codes "jklmnopq" ∷ []

render-write_all_example :
    render (write_all (new_capped_buffer 4 5) pieces) ≡ log_text 4 5 (concat pieces)
render-write_all_example = render-write_all 4 5 pieces (omega arith)
