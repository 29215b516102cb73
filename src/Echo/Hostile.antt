-- ===== src/Echo/Hostile.antt =====
-- What the loop makes of a length that no well-behaved client sends.
use reactor_network_library.Buffer.{Buffer}
