-- ===== src/Fiber/Switch/Targets.antt =====
-- The targets that have a switch, each with its port.
use krio.Fiber.Switch.Port.{Port, Sound}
use krio.Fiber.Switch.X64.{x64, x64-Sound}
use krio.Fiber.Switch.Ms64.{ms64, ms64-Sound}
use krio.Fiber.Switch.X32.{x32, x32-Sound}
use krio.Fiber.Switch.Rv64.{rv64, rv64-Sound}
use krio.Fiber.Switch.Arm64.{arm64, arm64-Sound}
use krio.Fiber.Switch.Arm64Windows.{arm64_windows, arm64_windows-Sound}

-- The `cfg` of each switch in arch.rs.
pub data Target : Type 0 where
  x86_64 x86_64_windows x86 riscv64 aarch64 aarch64_windows : Target

abbrev pub port : Target → Port
port x86_64 = x64
port x86_64_windows = ms64
port x86 = x32
port riscv64 = rv64
port aarch64 = arm64
port aarch64_windows = arm64_windows

pub port-Sound : (t : Target) → Sound (port t)
port-Sound x86_64 = x64-Sound
port-Sound x86_64_windows = ms64-Sound
port-Sound x86 = x32-Sound
port-Sound riscv64 = rv64-Sound
port-Sound aarch64 = arm64-Sound
port-Sound aarch64_windows = arm64_windows-Sound
