-- ===== src/Controller/Samples.antt =====
-- A controller and a geometry on a line, on which requests are run.
use skyeye.Common.{◌+◌, true, false, []}
use skyeye.Coalitions.{blue}
use skyeye.Controller.Handlers.{Controller}
use skyeye.Controller.Requests.{Geometry}

-- On the line, a bearing of 90 degrees leads to the right.
abbrev pub geometry : Geometry
geometry = record {
  point_at = λ p bearing range. record p { lon = p.lon + range };
  below = λ feet. 0;
  above = λ feet. 9;
  is_hot = λ p g. true;
  in_cone = λ p bearing q. true;
}

abbrev pub controller : Controller
controller = record {
  coalition = blue;
  picture_broadcast_interval = 120;
  picture_broadcast_deadline = 0;
  was_last_picture_clean = false;
  enable_threat_monitoring = true;
  threat_cooldowns = record { cooldown = 90; cooldowns = [] };
  merges = [];
}
