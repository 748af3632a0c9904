-- ===== src/Target/Pypsa/Buses/Marked.antt =====
-- Which buses `busGrid` of internal/target/pypsa/buses.go makes.
use meme.Model.Types.{Model}
