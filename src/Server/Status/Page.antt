-- ===== src/Server/Status/Page.antt =====
-- pkg/server/status.go, `(ServerStatus).String`: what stands on the status page, line by line. The
-- borders, the colours, the widths of the columns, and times and durations as text are left out.
pub mod Lines
use tbore.Base.{
  ℕ, suc, ◌-◌, ◌==◌, nat_eq, string_eq, String, length, if◌then◌else◌, Bool, true, false, List, [],
  ◌∷◌, Option, none, some,
}
use tbore.Base.Int.{ℤ, pos, wrap64, scale_ℤ}
use tbore.Base.GoMap.{GoMap, lookup}
use tbore.Config.{ServerConfig}
use tbore.Server.Session.{Session, TunnelInfo, ClientInfo}
use tbore.Server.Status.{Row, row, Totals, totals}

pub record OverviewRow : Type 0 where
  pub id : String
  pub project : String
  pub region : String
  pub remote_addr : String

abbrev pub or_dash : String → String
or_dash s = if s == "" then "-" else s

unfoldable pub overview : List Session → List OverviewRow
overview [] = []
overview (conn ∷ l) =
    record {
      id = conn.id;
      project = or_dash conn.client_info.project;
      region = or_dash conn.client_info.region;
      remote_addr = conn.remote_addr;
    }
    ∷ overview l

-- The connect time and the number of tunnels.
unfoldable pub times : List Session → List (ℕ × ℕ)
times [] = []
times (conn ∷ l) = (conn.connect_time, length conn.tunnels) ∷ times l

-- `both` is `project + " (" + region + ")"`; an empty text is left out of the title.
unfoldable pub project_region : (String → String → String) → ClientInfo → String
project_region both info =
    if info.project == ""
    then ""
    else if info.region == ""
    then info.project
    else both info.project info.region

-- `is_last` chooses between the two branches of the tree.
pub record Line : Type 0 where
  pub is_last : Bool
  pub remote_port : ℕ
  pub texts : Row

abbrev pub tunnel_at : ℕ → Session → Option TunnelInfo
tunnel_at port s = elim (lookup port s.tunnels) [ none ↦ none | some a ↦ lookup a s.heap ]

module _ (format_active : ℤ → String) (format_port : ℕ → String) where
  -- The loop over the ports, of which there are `n`, from the i-th one on. In a session that is valid
  -- every port has its tunnel.
  unfoldable pub lines_from : ℕ → ℕ → GoMap ℕ ℕ → Session → List Line
  lines_from n i [] s = []
  lines_from n i ((port, _) ∷ l) s =
      let rest = lines_from n (suc i) l s in
      elim (tunnel_at port s) [
        | none ↦ rest
        | some t ↦
            record {
              is_last = i == n - 1;
              remote_port = t.remote_port;
              texts = row format_active format_port t;
            }
            ∷ rest
      ]

  unfoldable pub lines : Session → List Line
  unfolding lines_from
  lines s = lines_from (length s.tunnels) 0 s.tunnels s

-- No lines stand for "(no tunnels)".
pub record Detail : Type 0 where
  pub id : String
  pub title : String
  pub lines : List Line

-- A page with no connection ends after the numbers.
pub record Page : Type 0 where
  pub connections : ℕ
  pub max_connections : ℤ
  pub totals : Totals
  pub tunnel_limit : ℤ
  pub overview : List OverviewRow
  pub times : List (ℕ × ℕ)
  pub details : List Detail

module _ (format_active : ℤ → String) (format_port : ℕ → String)
    (both : String → String → String) where
  unfoldable pub details : List Session → List Detail
  unfolding project_region lines
  details [] = []
  details (conn ∷ l) =
      record {
        id = conn.id;
        title = project_region both conn.client_info;
        lines = lines format_active format_port conn;
      }
      ∷ details l

  unfoldable pub page : ServerConfig → List Session → Page
  unfolding overview times details
  page cfg connections = record {
    connections = length connections;
    max_connections = cfg.max_connections;
    totals = totals connections;
    tunnel_limit =
        if length connections == 0
        then pos 0
        else wrap64 (scale_ℤ (length connections) cfg.max_tunnels);
    overview = overview connections;
    times = times connections;
    details = details connections;
  }
