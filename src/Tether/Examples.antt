-- ===== src/Tether/Examples.antt =====
-- A shutdown on a device that takes every request.
use android_device_ikko_mind.Common.{◌≡◌, true}
use android_device_ikko_mind.Tether.Backend.Control.{deactivate, deactivate_at}
use android_device_ikko_mind.Tether.Backend.Control.Depth.{deactivate_depth}
use android_device_ikko_mind.Tether.Device.{host, idle}

deactivate_depth_example :
    deactivate_at host 5 (record idle { active = true })
    ≡ deactivate host (record idle { active = true })
deactivate_depth_example = deactivate_depth host 4 (record idle { active = true })
