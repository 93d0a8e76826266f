-- ===== src/Server/Strangers.antt =====
-- A peer that never registers and never logs in.
use server_jt.Base.{ℕ, ◌≡◌, ◌≢◌, []}
use server_jt.Session.{connected}
use server_jt.World.{World}
use server_jt.Server.Frames.{Message}

-- Any message but the terminal's general response (0x0001), a registration (0x0100), an
-- authentication (0x0102), a location (0x0200) and a batch of them (0x0704).
abbrev pub IsBarred : Message → Type 0
IsBarred m = (m.id ≢ 0x0001) × (m.id ≢ 0x0100) × (m.id ≢ 0x0102) × (m.id ≢ 0x0200) × (m.id ≢ 0x0704)

-- A session without a name.
IsStranger : ℕ → World → Type 0
IsStranger sid w = ((w.sessions sid).state ≡ connected) × ((w.sessions sid).phone ≡ [])
