-- ===== src/Agent/Runs.antt =====
-- The runs of an agent and the server: rounds of collecting and uploads, in any order, on any network.
use vehinode.Prelude.{refl, inl, inr, ℕ}
use vehinode.Models.{Key, Instant, Device, Db}
use vehinode.Telemetry.{NewIds}
use vehinode.Agent.{AgentRuntime, Reading, Network, collect_once, upload_once}
use vehinode.Agent.Delivery.{IsKept, collect_once-IsKept, upload_once-IsKept}

-- The state of an agent and of the server's database.
pub record System : Type 0 where
  pub agent : AgentRuntime
  pub db : Db

abbrev pub collected : Reading → System → System
collected reading s = record s { agent = (collect_once reading s.agent).1 }

abbrev pub uploaded : Network → ℕ → Key → System → Device → Instant → NewIds → System
uploaded network limit boot_id s device now new =
    let (_, (agent, db)) =
      upload_once network limit boot_id s.agent
        (record { db = s.db; device = device; now = now; new = new }) in
    record { agent = agent; db = db }

-- A round of the agent. A request or its answer may be lost.
pub data Step : System → System → Type 0 where
  collects : (s : System) (reading : Reading) → Step s (collected reading s)
  uploads :
      (s : System) (network : Network) (limit : ℕ) (boot_id : Key) (device : Device) (now : Instant)
      (new : NewIds)
      → Step s (uploaded network limit boot_id s device now new)

pub data Reaches (s : System) : System → Type 0 where
  here : Reaches s s
  then_step : {t u : System} → Reaches s t → Step t u → Reaches s u

Step-IsKept : (k : Key) {s t : System} → Step s t → IsKept k s.agent s.db → IsKept k t.agent t.db
Step-IsKept k (collects s reading) kept = collect_once-IsKept k reading s.agent s.db (inl kept)
Step-IsKept k (uploads s network limit boot_id device now new) kept =
    upload_once-IsKept k network limit boot_id s.agent
      (record { db = s.db; device = device; now = now; new = new }) kept

Reaches-IsKept :
    (k : Key) {s t : System} → IsKept k s.agent s.db → Reaches s t → IsKept k t.agent t.db
Reaches-IsKept k kept here = kept
Reaches-IsKept k kept (then_step run step) = Step-IsKept k step (Reaches-IsKept k kept run)

-- A sample that an agent has collected is, after whatever rounds follow and whichever requests and
-- answers are lost, waiting in the agent's queue or stored on the server.
pub collected-IsKept :
    (s t : System) (reading : Reading)
    → Reaches (collected reading s) t
    → IsKept reading.id t.agent t.db
collected-IsKept s t reading run =
    Reaches-IsKept reading.id (collect_once-IsKept reading.id reading s.agent s.db (inr refl)) run
